-- ===== src/Uart/Sample.antt =====
-- A UART whose transmitter is busy for two reads of the status after each byte.
use vesper.Prelude.{
  ℕ, zero, suc, ◌+◌, ◌-◌, ◌≡◌, refl, ap, ◌∙◌, List, [], ◌∷◌, ◌++◌, arith, ◌==◌, if◌then◌else◌,
  bit_and,
}
use vesper.Mmio.{Device}
use vesper.Uart.{uart_base, Uart, new, rbr_thr, lsr}
use vesper.Uart.Line.{Line, Behaves}
use vesper.Uart.Receive.{rest}

pub record State : Type 0 where
  pub sent : List ℕ
  pub received : List ℕ
  pub busy : ℕ

abbrev ready_bit : List ℕ → ℕ
ready_bit [] = 0
ready_bit (b ∷ bs) = 1

abbrev empty_bit : ℕ → ℕ
empty_bit zero = 0x20
empty_bit (suc n) = 0

abbrev byte_of : List ℕ → ℕ
byte_of [] = 0
byte_of (b ∷ bs) = b

abbrev status : State → ℕ
status s = empty_bit s.busy + ready_bit s.received

abbrev send : ℕ → State → ℕ → State
send b s zero = record s { sent = s.sent ++ (b ∷ []); busy = 2 }
send b s (suc n) = s

abbrev pub device : Device State
device = record {
  read = λ a s.
      if a == uart_base + lsr
      then (status s, record s { busy = s.busy - 1 })
      else (byte_of s.received, record s { received = rest s.received });
  write = λ a b s. if a == uart_base + rbr_thr then send b s s.busy else s;
}

abbrev pub uart : Uart
uart = new uart_base

abbrev pub line : Line State
line = record { sent = λ s. s.sent; received = λ s. s.received; delay = λ s. s.busy }

-- The two bits of the status are apart.
status_bits :
    (n : ℕ) (l : List ℕ)
    → (bit_and (empty_bit n + ready_bit l) 0x20 ≡ empty_bit n)
      × (bit_and (empty_bit n + ready_bit l) 1 ≡ ready_bit l)
status_bits zero [] = (refl, refl)
status_bits zero (b ∷ bs) = (refl, refl)
status_bits (suc n) [] = (refl, refl)
status_bits (suc n) (b ∷ bs) = (refl, refl)

pub device-Behaves : Behaves device uart line 2
device-Behaves = record {
  status_sent = λ d. refl;
  status_received = λ d. refl;
  status_busy = λ d n e. (
    (status_bits d.busy d.received).0 ∙ ap empty_bit (let e' : d.busy ≡ suc n = omega arith in e'),
    omega (arith, e),
  );
  status_empty = λ d e.
      (ap (λ m. m == 0) ((status_bits d.busy d.received).0 ∙ ap empty_bit e), omega (arith, e));
  status_none = λ d e. (status_bits d.busy d.received).1 ∙ ap ready_bit e;
  status_some = λ d b bs e. ap (λ m. m == 0) ((status_bits d.busy d.received).1 ∙ ap ready_bit e);
  hand_out = λ d b bs e. (ap byte_of e, ap rest e, refl, omega arith);
  send = λ d b e. rw e (refl, refl, omega arith);
}
