-- ===== src/Uart/Line.antt =====
-- What src/drivers/uart/mod.rs relies on of an NS16550A: a line out, a line in, and a status register
-- that tells of both.
use vesper.Prelude.{ℕ, ◌+◌, ◌≤◌, ◌≡◌, bit_and, false, List, [], ◌∷◌, ◌++◌, ◌==◌}
use vesper.Mmio.{Device}
use vesper.Uart.{Uart, read, write, lsr, rbr_thr, lsr_thr_empty, lsr_data_ready}

-- Of a device's state: what it has sent, what it has received and not handed out yet, and how often the
-- status has to be read before the transmitter is empty.
pub record Line (D : Type 0) : Type 0 where
  pub sent : D → List ℕ
  pub received : D → List ℕ
  pub delay : D → ℕ

-- A read of the status changes neither line and brings the transmitter nearer to being empty, and its two
-- bits tell whether it is empty and whether a byte was received. A byte that is written into an empty
-- transmitter is sent, and keeps it busy for at most `bound` reads of the status. A byte that was
-- received is handed out by a read.
pub record Behaves {D : Type 0} (device : Device D) (uart : Uart) (line : Line D) (bound : ℕ)
    : Type 0 where
  pub status_sent : (d : D) → line.sent (read device uart lsr d).1 ≡ line.sent d
  pub status_received : (d : D) → line.received (read device uart lsr d).1 ≡ line.received d
  pub status_busy :
      (d : D) (n : ℕ)
      → line.delay d ≡ 1 + n
      → (bit_and ((read device uart lsr d).0) lsr_thr_empty ≡ 0)
        × (line.delay (read device uart lsr d).1 ≤ n)
  pub status_empty :
      (d : D)
      → line.delay d ≡ 0
      → ((bit_and ((read device uart lsr d).0) lsr_thr_empty == 0) ≡ false)
        × (line.delay (read device uart lsr d).1 ≡ 0)
  pub status_none :
      (d : D) → line.received d ≡ [] → bit_and ((read device uart lsr d).0) lsr_data_ready ≡ 0
  pub status_some :
      (d : D) (b : ℕ) (bs : List ℕ)
      → line.received d ≡ b ∷ bs
      → (bit_and ((read device uart lsr d).0) lsr_data_ready == 0) ≡ false
  pub hand_out :
      (d : D) (b : ℕ) (bs : List ℕ)
      → line.received d ≡ b ∷ bs
      → ((read device uart rbr_thr d).0 ≡ b)
        × (line.received (read device uart rbr_thr d).1 ≡ bs)
        × (line.sent (read device uart rbr_thr d).1 ≡ line.sent d)
        × (line.delay (read device uart rbr_thr d).1 ≤ line.delay d)
  pub send :
      (d : D) (b : ℕ)
      → line.delay d ≡ 0
      → (line.sent (write device uart rbr_thr b d) ≡ line.sent d ++ (b ∷ []))
        × (line.received (write device uart rbr_thr b d) ≡ line.received d)
        × (line.delay (write device uart rbr_thr b d) ≤ bound)
