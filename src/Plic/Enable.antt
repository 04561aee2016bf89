-- ===== src/Plic/Enable.antt =====
-- The sources that `enable` of src/drivers/plic/mod.rs lets through.
use vesper.Prelude.{
  ℕ, zero, suc, ◌+◌, ◌*◌, ◌/◌, ◌%◌, ◌^◌, ◌<◌, ◌≤◌, ◌≡◌, ◌≢◌, refl, ap, ◌∙◌, arith, bit_or, ◌==◌,
  if◌then◌else◌, ne→==,
}
use native.Mathlib.Nat.{pow-suc, pow-le-pow_right}
use vesper.Prelude.Bits.{bit_or-halve, bit_or-zero}
use vesper.Mmio.{Device}
use vesper.Plic.{enable_hart0_m}

-- Bit `j` of a word.
abbrev pub bit : ℕ → ℕ → ℕ
bit zero a = a % 2
bit (suc j) a = bit j (a / 2)

abbrev either : ℕ → ℕ → ℕ
either a b = if a == 0 then b else 1

bit-bit_or : (j a b : ℕ) → bit j (bit_or a b) ≡ either (bit j a) (bit j b)
bit-bit_or zero a b = ground (arith, bit_or-halve a b)
bit-bit_or (suc j) a b =
    let half : bit_or a b / 2 ≡ bit_or (a / 2) (b / 2) = ground (arith, bit_or-halve a b) in
    ap (bit j) half ∙ bit-bit_or j (a / 2) (b / 2)

bit-zero : (j : ℕ) → bit j 0 ≡ 0
bit-zero zero = refl
bit-zero (suc j) = bit-zero j

bit-pow : (j k : ℕ) → bit j (2 ^ k) ≡ (if j == k then 1 else 0)
bit-pow zero zero = refl
bit-pow zero (suc k) = ground (arith, pow-suc 2 k)
bit-pow (suc j) zero = ground (arith, bit-zero j)
bit-pow (suc j) (suc k) =
    let half : 2 ^ suc k / 2 ≡ 2 ^ k = omega (arith, pow-suc 2 k) in
    ap (bit j) half ∙ bit-pow j k ∙ ground arith

bit-below : (j a : ℕ) → bit j a < 2
bit-below zero a = omega arith
bit-below (suc j) a = bit-below j (a / 2)

bit_or-below : (k a b : ℕ) → a < 2 ^ k → b < 2 ^ k → bit_or a b < 2 ^ k
bit_or-below zero a b la lb = ground (arith, bit_or-halve a b, bit_or-zero a)
bit_or-below (suc k) a b la lb = omega (
  arith,
  pow-suc 2 k,
  bit_or-halve a b,
  bit_or-below k (a / 2) (b / 2) (omega (arith, pow-suc 2 k)) (omega (arith, pow-suc 2 k)),
)

-- The bit of a source fits in a word with those of the others.
pub enabled-fits : (id a : ℕ) → id < 32 → a < 2 ^ 32 → bit_or a (2 ^ id) < 2 ^ 32
enabled-fits id a lt fits =
    let le : 2 ^ id ≤ 2 ^ 31 = pow-le-pow_right (omega arith) {j = 31} (omega arith) in
    bit_or-below 32 a (2 ^ id) fits (omega (arith, le))

-- A word with the bit of `id` set.
pub bit-enabled :
    (id a : ℕ)
    → (bit id (bit_or a (2 ^ id)) ≡ 1) × ((j : ℕ) → j ≢ id → bit j (bit_or a (2 ^ id)) ≡ bit j a)
bit-enabled id a = (
  bit-bit_or id a (2 ^ id) ∙ ground (arith, bit-pow id id),
  λ j ne. bit-bit_or j a (2 ^ id) ∙ ground (arith, bit-pow j id, ne→== _ _ ne, bit-below j a),
)

-- The word of the enabled sources is a register that keeps what is written to it, but for the bit of source 0,
-- which is hard-wired to 0, and no other register changes it.
pub record Enables {D : Type 0} (device : Device D) (word : D → ℕ) : Type 0 where
  pub reads : (d : D) → (device.read enable_hart0_m d).0 ≡ word d
  pub kept : (d : D) → word (device.read enable_hart0_m d).1 ≡ word d
  pub fits : (d : D) → word d < 2 ^ 32
  pub no_source : (d : D) → word d % 2 ≡ 0
  pub written :
      (v : ℕ) (d : D) → v < 2 ^ 32 → v % 2 ≡ 0 → word (device.write enable_hart0_m v d) ≡ v
  pub others : (a v : ℕ) (d : D) → a ≢ enable_hart0_m → word (device.write a v d) ≡ word d

-- The priority of a source, and the threshold that it has to be above, are registers of three bits at their own
-- addresses. To read the enable word changes neither.
pub record Priorities {D : Type 0} (device : Device D) (prio : ℕ → D → ℕ) (threshold : D → ℕ)
    : Type 0 where
  pub prio_written :
      (id v : ℕ) (d : D)
      → 0 < id
      → id < 32
      → v < 8
      → prio id (device.write (0x0c00_0000 + 4 * id) v d) ≡ v
  pub prio_others :
      (id a v : ℕ) (d : D)
      → id < 32
      → a ≢ 0x0c00_0000 + 4 * id
      → prio id (device.write a v d) ≡ prio id d
  pub prio_kept : (id : ℕ) (d : D) → prio id (device.read enable_hart0_m d).1 ≡ prio id d
  pub threshold_written : (v : ℕ) (d : D) → v < 8 → threshold (device.write 0x0c20_0000 v d) ≡ v
  pub threshold_others :
      (a v : ℕ) (d : D) → a ≢ 0x0c20_0000 → threshold (device.write a v d) ≡ threshold d
  pub threshold_kept : (d : D) → threshold (device.read enable_hart0_m d).1 ≡ threshold d
