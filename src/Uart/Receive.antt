-- ===== src/Uart/Receive.antt =====
-- Bytes taken by `get` of src/drivers/uart/mod.rs.
use vesper.Prelude.{
  ℕ, ◌≤◌, ◌≡◌, refl, ap, ◌∙◌, Option, some, none, List, [], ◌∷◌, arith, ◌-◌, ℕ_discrete,
}
use native.Mathlib.Nat.{le_trans}
use vesper.Mmio.{Device}
use vesper.Uart.{Uart, read, lsr, get}
use vesper.Uart.Line.{Line, Behaves}

-- What is handed out first, and what is left.
abbrev pub first : List ℕ → Option ℕ
first [] = none
first (b ∷ bs) = some b

abbrev pub rest : List ℕ → List ℕ
rest [] = []
rest (b ∷ bs) = bs

module _ {D : Type 0} (device : Device D) (uart : Uart) (line : Line D) (bound : ℕ)
    (behaves : Behaves device uart line bound) where
  delay-status : (d : D) → line.delay (read device uart lsr d).1 ≤ line.delay d
  delay-status d = elim (ℕ_discrete (line.delay d) 0) [
    | yes now ↦ omega (arith, (behaves.status_empty d now).1)
    | no later ↦ omega (arith, (behaves.status_busy d (line.delay d - 1) (omega arith)).1)
  ]

  -- `get` takes the first byte that was received, and nothing if there is none.
  pub get-at :
      (d : D) (l : List ℕ)
      → line.received d ≡ l
      → ((get device uart d).0 ≡ first l)
        × (line.received (get device uart d).1 ≡ rest l)
        × (line.sent (get device uart d).1 ≡ line.sent d)
        × (line.delay (get device uart d).1 ≤ line.delay d)
  unfolding get
  get-at d [] e =
      rw (behaves.status_none d e)
        (refl, behaves.status_received d ∙ e, behaves.status_sent d, delay-status d)
  get-at d (b ∷ bs) e =
      let d₁ = (read device uart lsr d).1 in
      let (byte, left, sent, delay) = behaves.hand_out d₁ b bs (behaves.status_received d ∙ e) in
      rw (behaves.status_some d b bs e)
        (ap some byte, left, sent ∙ behaves.status_sent d, le_trans delay (delay-status d))
