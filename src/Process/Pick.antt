-- ===== src/Process/Pick.antt =====
-- The search of `schedule` in src/process/table.rs: the slots in cyclic order from a start.
use vesper.Prelude.{
  ℕ, zero, suc, ◌+◌, ◌-◌, ◌%◌, ◌<◌, ◌≤◌, ◌≡◌, Bool, true, false, Option, none, some, List, arith,
  get_elem?, Bool-cases, inl, inr, dec_le, ℕ_discrete,
}
use native.Mathlib.Nat.{mod-eq_of_lt}
use vesper.Process.{Process, runs, pick}

-- Whether slot `i` holds a process that can run.
abbrev pub runs_at : List (Option Process) → ℕ → Bool
runs_at slots i = runs (get_elem? slots i)

-- Slot `i` is `d` steps from the start, and no slot on the way can run.
pub record Next (slots : List (Option Process)) (n start offset i : ℕ) : Type 0 where
  pub distance : ℕ
  pub behind : offset ≤ distance
  pub at : i ≡ (start + distance) % n
  pub able : runs_at slots i ≡ true
  pub skipped : (e : ℕ) → offset ≤ e → e < distance → runs_at slots ((start + e) % n) ≡ false

pub pick-Next :
    (slots : List (Option Process)) (n start offset k i : ℕ)
    → pick slots n start offset k ≡ some i
    → (f : Next slots n start offset i) × (f.distance < offset + k)
unfolding pick
pick-Next slots n start offset zero i h = ground arith
pick-Next slots n start offset (suc k) i h =
    elim (Bool-cases (runs_at slots ((start + offset) % n))) [
      | inl able ↦
          let at : i ≡ (start + offset) % n = ground arith in
          (
            record {
              distance = offset;
              behind = omega arith;
              at = at;
              able = rw at able;
              skipped = λ e lo hi. absurd (omega arith);
            },
            omega arith,
          )
      | inr idle ↦
          let (f, lt) = pick-Next slots n start (offset + 1) k i (rw idle at h) in
          (
            record {
              distance = f.distance;
              behind = omega (arith, f.behind);
              at = f.at;
              able = f.able;
              skipped = λ e lo hi. elim (ℕ_discrete e offset) [
                | yes here ↦ rw here idle
                | no further ↦ f.skipped e (omega arith) hi
              ];
            },
            omega arith,
          )
    ]

pub pick-none :
    (slots : List (Option Process)) (n start offset k : ℕ)
    → pick slots n start offset k ≡ none
    → (e : ℕ) → offset ≤ e
    → e < offset + k
    → runs_at slots ((start + e) % n) ≡ false
unfolding pick
pick-none slots n start offset zero h e lo hi = absurd (omega arith)
pick-none slots n start offset (suc k) h e lo hi =
    elim (Bool-cases (runs_at slots ((start + offset) % n))) [
      | inl able ↦ ground arith
      | inr idle ↦ elim (ℕ_discrete e offset) [
        | yes here ↦ rw here idle
        | no further ↦
            pick-none slots n start (offset + 1) k (rw idle at h) e (omega arith) (omega arith)
      ]
    ]

-- Every slot is some number of steps below `n` from the start.
pub reach : (n start j : ℕ) → start < n → j < n → (d : ℕ) × (d < n) × (j ≡ (start + d) % n)
reach n start j hs hj = elim (dec_le start j) [
  | yes le ↦ (
    j - start,
    omega arith,
    let e : start + (j - start) ≡ j = omega arith in rw (e, mod-eq_of_lt hj),
  )
  | no gt ↦ (
    j + n - start,
    omega arith,
    let e : start + (j + n - start) ≡ j + n = omega arith in rw e (grind arith),
  )
]
