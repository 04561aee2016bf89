-- ===== src/Prelude/Bits.antt =====
-- `&` and `|` on words that are split into fields: a mask of low bits, a mask of high bits, and the
-- union of fields that do not overlap.
use Prim.Native.Nat.{
  ℕ, zero, suc, ◌+◌, ◌-◌, ◌*◌, ◌/◌, ◌%◌, ◌^◌, ◌≤◌, ◌<◌, min, max, bit_and, bit_or, digits,
  bit_and-bitwise, bit_or-bitwise,
}
use mathlib.Core.Path.{◌≡◌, refl, ap}
use native.Mathlib.Nat.{pow-suc, one-le-pow}
use native.Mathlib.Omega.{arith}

-- With as many rounds as the number, further rounds add nothing.
module _ (tail : ℕ → ℕ) (digit : ℕ → ℕ → ℕ) where
  rounds_agree : (a b n m : ℕ) → a ≤ n → a ≤ m → digits tail digit n a b ≡ digits tail digit m a b
  rounds_agree a b zero zero h k = refl
  rounds_agree zero b zero (suc m) h k = refl
  rounds_agree zero b (suc n) zero h k = refl
  rounds_agree zero b (suc n) (suc m) h k = refl
  rounds_agree (suc a) b zero (suc m) h k = absurd (omega arith)
  rounds_agree (suc a) b (suc n) zero h k = absurd (omega arith)
  rounds_agree (suc a) b (suc n) (suc m) h k =
      ap (λ t. t * 2 + digit (suc a % 2) (b % 2))
        (rounds_agree (suc a / 2) (b / 2) n m (omega arith) (omega arith))

  halve :
      (a b : ℕ)
      → digits tail digit (suc a) (suc a) b
        ≡ digits tail digit (suc a / 2) (suc a / 2) (b / 2) * 2 + digit (suc a % 2) (b % 2)
  halve a b =
      ap (λ t. t * 2 + digit (suc a % 2) (b % 2))
        (rounds_agree (suc a / 2) (b / 2) a (suc a / 2) (omega arith) (omega arith))

pub bit_and-halve : (a b : ℕ) → bit_and a b ≡ bit_and (a / 2) (b / 2) * 2 + min (a % 2) (b % 2)
bit_and-halve zero b = omega (arith, bit_and-bitwise 0 b, bit_and-bitwise 0 (b / 2))
bit_and-halve (suc a) b = omega (
  arith,
  bit_and-bitwise (suc a) b,
  bit_and-bitwise (suc a / 2) (b / 2),
  halve (λ t. zero) min a b,
)

pub bit_or-halve : (a b : ℕ) → bit_or a b ≡ bit_or (a / 2) (b / 2) * 2 + max (a % 2) (b % 2)
bit_or-halve zero b = omega (arith, bit_or-bitwise 0 b, bit_or-bitwise 0 (b / 2))
bit_or-halve (suc a) b =
    omega
      (arith, bit_or-bitwise (suc a) b, bit_or-bitwise (suc a / 2) (b / 2), halve (λ t. t) max a b)

-- By strong induction on a bound of the first number.
bit_or-zero_below : (n a : ℕ) → a ≤ n → bit_or a 0 ≡ a
bit_or-zero_below zero zero h = refl
bit_or-zero_below zero (suc a) h = absurd (omega arith)
bit_or-zero_below (suc n) a h =
    omega (arith, bit_or-halve a 0, bit_or-zero_below n (a / 2) (omega arith))

pub bit_or-zero : (a : ℕ) → bit_or a 0 ≡ a
bit_or-zero a = bit_or-zero_below a a (omega arith)

bit_and-zero_below : (n a : ℕ) → a ≤ n → bit_and a 0 ≡ 0
bit_and-zero_below zero zero h = refl
bit_and-zero_below zero (suc a) h = absurd (omega arith)
bit_and-zero_below (suc n) a h =
    omega (arith, bit_and-halve a 0, bit_and-zero_below n (a / 2) (omega arith))

pub bit_and-zero : (a : ℕ) → bit_and a 0 ≡ 0
bit_and-zero a = bit_and-zero_below a a (omega arith)

double : (q k : ℕ) → q * 2 ^ suc k ≡ 2 * (q * 2 ^ k)
double q k = omega (arith, ap (λ (t : ℕ). q * t) (pow-suc 2 k))

-- Two fields side by side.
pub bit_or-fields : (k q r : ℕ) → r < 2 ^ k → bit_or (q * 2 ^ k) r ≡ q * 2 ^ k + r
bit_or-fields zero q r h = ground (arith, bit_or-zero q)
bit_or-fields (suc k) q r h = ground (
  arith,
  bit_or-halve (q * 2 ^ suc k) r,
  double q k,
  pow-suc 2 k,
  bit_or-fields k q (r / 2) (omega (arith, pow-suc 2 k)),
)

-- A mask inside the low field reads the low field.
pub bit_and-low : (k q r m : ℕ) → r < 2 ^ k → m < 2 ^ k → bit_and (q * 2 ^ k + r) m ≡ bit_and r m
bit_and-low zero q r m h l = ground (arith, bit_and-zero (q * 2 ^ 0 + r), bit_and-zero r)
bit_and-low (suc k) q r m h l = ground (
  arith,
  bit_and-halve (q * 2 ^ suc k + r) m,
  bit_and-halve r m,
  double q k,
  pow-suc 2 k,
  bit_and-low k q (r / 2) (m / 2) (omega (arith, pow-suc 2 k)) (omega (arith, pow-suc 2 k)),
)

-- A mask above the low field reads the high field.
pub bit_and-high :
    (k q r m : ℕ) → r < 2 ^ k → bit_and (q * 2 ^ k + r) (m * 2 ^ k) ≡ bit_and q m * 2 ^ k
bit_and-high zero q r m h = ground arith
bit_and-high (suc k) q r m h = ground (
  arith,
  bit_and-halve (q * 2 ^ suc k + r) (m * 2 ^ suc k),
  double q k,
  double m k,
  double (bit_and q m) k,
  pow-suc 2 k,
  bit_and-high k q (r / 2) m (omega (arith, pow-suc 2 k)),
)

-- The mask of all bits below `k` keeps what is below.
pub bit_and-full : (k a : ℕ) → a < 2 ^ k → bit_and a (2 ^ k - 1) ≡ a
bit_and-full zero a h = ground (arith, bit_and-zero a)
bit_and-full (suc k) a h = ground (
  arith,
  bit_and-halve a (2 ^ suc k - 1),
  pow-suc 2 k,
  one-le-pow k 2,
  bit_and-full k (a / 2) (omega (arith, pow-suc 2 k)),
)
