-- ===== src/Uart.antt =====
-- src/drivers/uart/mod.rs: the polled NS16550A driver, over the device's registers.
pub mod Line
pub mod Send
pub mod Receive
pub mod Sample
pub mod Keeps
mod Tests
use vesper.Prelude.{
  ℕ, zero, suc, ◌+◌, bit_and, Bool, Option, none, some, List, [], ◌∷◌, ◌==◌, if◌then◌else◌,
  option_bind,
}
use vesper.Mmio.{Device}

abbrev pub uart_base : ℕ
uart_base = 0x1000_0000

abbrev pub rbr_thr : ℕ
rbr_thr = 0

abbrev pub ier : ℕ
ier = 1

abbrev pub fcr : ℕ
fcr = 2

abbrev pub lcr : ℕ
lcr = 3

abbrev pub lsr : ℕ
lsr = 5

abbrev pub lsr_data_ready : ℕ
lsr_data_ready = 0x01

abbrev pub lsr_thr_empty : ℕ
lsr_thr_empty = 0x20

abbrev pub lcr_8bits : ℕ
lcr_8bits = 0x03

abbrev pub fcr_enable : ℕ
fcr_enable = 0x01

abbrev pub ier_rx_enable : ℕ
ier_rx_enable = 0x01

-- A handle is its base address.
pub record Uart : Type 0 where
  pub base : ℕ

abbrev pub new : ℕ → Uart
new base = record { base = base }

module _ {D : Type 0} (device : Device D) (uart : Uart) where
  abbrev pub read : ℕ → D → ℕ × D
  read offset d = device.read (uart.base + offset) d

  abbrev pub write : ℕ → ℕ → D → D
  write offset value d = device.write (uart.base + offset) value d

  unfoldable pub init : D → D
  init d = write ier ier_rx_enable (write fcr fcr_enable (write lcr lcr_8bits d))

  -- `while self.read(LSR) & LSR_THR_EMPTY == 0 {}`, for at most `fuel` reads.
  unfoldable pub wait_empty : ℕ → D → Option D
  wait_empty zero d = none
  wait_empty (suc fuel) d =
      let (status, d') = read lsr d in
      let again = wait_empty fuel d' in if bit_and status lsr_thr_empty == 0 then again else some d'

  unfoldable pub put : ℕ → ℕ → D → Option D
  unfolding wait_empty
  put fuel byte d = option_bind (wait_empty fuel d) λ d'. some (write rbr_thr byte d')

  -- The byte behind a status that says that there is one.
  abbrev pub take_byte : ℕ × D → Option ℕ × D
  take_byte (byte, d) = (some byte, d)

  abbrev pub get_at : ℕ × D → Option ℕ × D
  get_at (status, d) =
      if bit_and status lsr_data_ready == 0 then (none, d) else take_byte (read rbr_thr d)

  unfoldable pub get : D → Option ℕ × D
  get d = get_at (read lsr d)

  -- The loop of `get_blocking`, for at most `fuel` rounds.
  unfoldable pub get_blocking : ℕ → D → Option (ℕ × D)
  unfolding get
  get_blocking zero d = none
  get_blocking (suc fuel) d =
      let (r, d') = get d in
      let again = get_blocking fuel d' in elim r [ some b ↦ some (b, d') | none ↦ again ]

  -- `for byte in s.bytes() { self.put(byte) }`
  unfoldable pub write_str : ℕ → List ℕ → D → Option D
  unfolding put
  write_str fuel [] d = some d
  write_str fuel (byte ∷ bytes) d = option_bind (put fuel byte d) (write_str fuel bytes)
