-- ===== src/Escape/Grammar.antt =====
-- The echo of src/arch/riscv64/trap.rs against the grammar of its input: single bytes, `ESC` with one byte
-- behind it, and `ESC [` with one byte behind that.
use vesper.Prelude.{
  ℕ, ◌≡◌, refl, ap, ◌∙◌, Option, some, List, [], ◌∷◌, ◌++◌, ◌==◌, if◌then◌else◌, map, Bool-cases,
  inl, inr, true, false,
}
use mathlib.Core.List.{append-nil}
use vesper.Escape.{idle, esc, plain, arrow, echo_byte, echo_uart, echo_all}

-- What is shown of a whole input, by looking ahead.
abbrev pub shown : List ℕ → List ℕ
shown [] = []
shown (a ∷ []) = if a == esc then [] else plain a
shown (a ∷ b ∷ []) = let second = shown (b ∷ []) in if a == esc then [] else plain a ++ second
shown (a ∷ b ∷ c ∷ cs) =
    let after_csi = shown cs in
    let after_esc = shown (c ∷ cs) in
    let after_one = shown (b ∷ c ∷ cs) in
    if a == esc
    then (if b == b'[' then arrow c ++ after_csi else after_esc)
    else plain a ++ after_one

-- A byte outside a sequence that does not begin one is shown at once.
shown_plain :
    (a : ℕ) (cs : List (Option ℕ))
    → (a == esc) ≡ false
    → (echo_all idle (some a ∷ cs)).1 ≡ plain a ++ (echo_all idle cs).1
unfolding echo_all echo_uart echo_byte
shown_plain a cs e = rw e

-- `ESC [ c` shows what `c` stands for.
shown_csi :
    (a b c : ℕ) (cs : List (Option ℕ))
    → (a == esc) ≡ true
    → (b == b'[') ≡ true
    → (echo_all idle (some a ∷ some b ∷ some c ∷ cs)).1 ≡ arrow c ++ (echo_all idle cs).1
unfolding echo_all echo_uart echo_byte
shown_csi a b c cs e f = rw e (rw f)

-- `ESC` and another byte show nothing.
shown_esc :
    (a b : ℕ) (cs : List (Option ℕ))
    → (a == esc) ≡ true
    → (b == b'[') ≡ false
    → (echo_all idle (some a ∷ some b ∷ cs)).1 ≡ (echo_all idle cs).1
unfolding echo_all echo_uart echo_byte
shown_esc a b cs e f = rw e (rw f)

-- From the idle state, what the echo prints for a whole input, one byte per interrupt, is what the
-- look-ahead reading of that input shows: `ESC [ c` is one arrow key or nothing, `ESC` swallows itself
-- and one other byte, and every other byte is shown on its own.
pub echo_all-shown : (input : List ℕ) → (echo_all idle (map some input)).1 ≡ shown input
unfolding echo_all echo_uart echo_byte
echo_all-shown [] = refl
echo_all-shown (a ∷ []) = elim (Bool-cases (a == esc)) [
  | inl e ↦ rw e
  | inr e ↦ shown_plain a [] e ∙ append-nil (plain a) ∙ rw e
]
echo_all-shown (a ∷ b ∷ []) =
    let rest = echo_all-shown (b ∷ []) in
    elim (Bool-cases (a == esc)) [
      | inl e ↦ rw e
      | inr e ↦ shown_plain a (some b ∷ []) e ∙ ap (λ out. plain a ++ out) rest ∙ rw e
    ]
echo_all-shown (a ∷ b ∷ c ∷ cs) =
    let after_csi = echo_all-shown cs in
    let after_esc = echo_all-shown (c ∷ cs) in
    let after_one = echo_all-shown (b ∷ c ∷ cs) in
    elim (Bool-cases (a == esc)) [
      | inl e ↦ elim (Bool-cases (b == b'[')) [
        | inl f ↦
            shown_csi a b c (map some cs) e f ∙ ap (λ out. arrow c ++ out) after_csi ∙ rw e (rw f)
        | inr f ↦ shown_esc a b (map some (c ∷ cs)) e f ∙ after_esc ∙ rw e (rw f)
      ]
      | inr e ↦
          shown_plain a (map some (b ∷ c ∷ cs)) e ∙ ap (λ out. plain a ++ out) after_one ∙ rw e
    ]
