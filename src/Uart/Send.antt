-- ===== src/Uart/Send.antt =====
-- Bytes sent through src/drivers/uart/mod.rs.
use vesper.Prelude.{
  ℕ, zero, suc, ◌<◌, ◌≤◌, ◌≡◌, refl, sym, ap, ◌∙◌, some, List, [], ◌∷◌, ◌++◌, arith, ◌-◌,
  ℕ_discrete,
}
use mathlib.Core.List.{append_assoc, append-nil}
use vesper.Mmio.{Device}
use vesper.Uart.{Uart, read, write, lsr, rbr_thr, wait_empty, put, write_str}
use vesper.Uart.Line.{Line, Behaves}

-- The two lines and the delay bound after a call that sent some bytes.
pub record Sends {D : Type 0} (line : Line D) (bound : ℕ) (bytes : List ℕ) (d d' : D) : Type 0 where
  pub sent : line.sent d' ≡ line.sent d ++ bytes
  pub received : line.received d' ≡ line.received d
  pub delay : line.delay d' ≤ bound

module _ {D : Type 0} (device : Device D) (uart : Uart) (line : Line D) (bound : ℕ)
    (behaves : Behaves device uart line bound) where
  wait_empty_lem :
      (fuel : ℕ) (d : D)
      → line.delay d < fuel
      → (d' : D) × (wait_empty device uart fuel d ≡ some d')
        × (line.sent d' ≡ line.sent d)
        × (line.received d' ≡ line.received d)
        × (line.delay d' ≡ 0)
  unfolding wait_empty
  wait_empty_lem zero d lt = absurd (omega arith)
  wait_empty_lem (suc fuel) d lt = elim (ℕ_discrete (line.delay d) 0) [
    | yes now ↦
        let (bit, still) = behaves.status_empty d now in
        (
          (read device uart lsr d).1,
          rw bit,
          behaves.status_sent d,
          behaves.status_received d,
          still,
        )
    | no later ↦
        let (bit, nearer) = behaves.status_busy d (line.delay d - 1) (omega arith) in
        let (d', ends, sent, received, empty) =
          wait_empty_lem fuel (read device uart lsr d).1 (omega (arith, nearer)) in
        (d', rw bit ends, sent ∙ behaves.status_sent d, received ∙ behaves.status_received d, empty)
  ]

  put-Sends :
      (fuel byte : ℕ) (d : D)
      → line.delay d < fuel
      → (d' : D) × (put device uart fuel byte d ≡ some d') × Sends line bound (byte ∷ []) d d'
  unfolding put
  put-Sends fuel byte d lt =
      let (d₁, ends, sent, received, empty) = wait_empty_lem fuel d lt in
      let (sent', received', delay') = behaves.send d₁ byte empty in
      (
        write device uart rbr_thr byte d₁,
        rw ends,
        record {
          sent = sent' ∙ ap (λ l. l ++ (byte ∷ [])) sent;
          received = received' ∙ received;
          delay = delay';
        },
      )

  -- With fuel for one status read more than the transmitter is ever busy, all bytes of a text are sent,
  -- in order and behind what was sent before, and what was received is left alone.
  pub write_str-Sends :
      (fuel : ℕ) (bytes : List ℕ) (d : D)
      → bound < fuel
      → line.delay d ≤ bound
      → (d' : D) × (write_str device uart fuel bytes d ≡ some d') × Sends line bound bytes d d'
  unfolding write_str
  write_str-Sends fuel [] d enough ready =
      (d, refl, record { sent = sym (append-nil (line.sent d)); received = refl; delay = ready })
  write_str-Sends fuel (byte ∷ bytes) d enough ready =
      let (d₁, ends, one) = put-Sends fuel byte d (omega arith) in
      let (d₂, ends', rest) = write_str-Sends fuel bytes d₁ enough one.delay in
      (
        d₂,
        rw ends ends',
        record {
          sent =
              rest.sent
              ∙ ap (λ l. l ++ bytes) one.sent
              ∙ append_assoc (line.sent d) (byte ∷ []) bytes;
          received = rest.received ∙ one.received;
          delay = rest.delay;
        },
      )
