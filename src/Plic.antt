-- ===== src/Plic.antt =====
-- src/drivers/plic/mod.rs: the interrupt controller, over its registers.
pub mod Context
pub mod Enable
mod Tests
use vesper.Prelude.{
  ℕ, ◌+◌, ◌*◌, ◌^◌, Option, none, some, Outcome, done, panic, bit_and, bit_or, leb, ◌==◌,
  if◌then◌else◌,
}
use vesper.Mmio.{Device}

abbrev pub priority : ℕ
priority = 0x0c00_0000

abbrev pub enable_hart0_m : ℕ
enable_hart0_m = 0x0c00_2000

abbrev pub threshold_hart0_m : ℕ
threshold_hart0_m = 0x0c20_0000

abbrev pub claim_hart0_m : ℕ
claim_hart0_m = 0x0c20_0004

abbrev pub uart0_irq : ℕ
uart0_irq = 10

abbrev pub claimed : {D : Type 0} → ℕ × D → Option ℕ × D
claimed (claim, d) = if claim == 0 then (none, d) else (some claim, d)

module _ {D : Type 0} (device : Device D) where
  abbrev pub enable_in : ℕ → ℕ × D → D
  enable_in id (prev, d) = device.write enable_hart0_m (bit_or prev (2 ^ id)) d

  -- A shift by 32 and more, which overflow checks refuse, is a panic.
  unfoldable pub enable : ℕ → D → Outcome D
  enable id d = if leb 32 id then panic else done (enable_in id (device.read enable_hart0_m d))

  unfoldable pub set_priority : ℕ → ℕ → D → D
  set_priority id prio d = device.write (priority + 4 * id) (bit_and prio 7) d

  unfoldable pub set_threshold : ℕ → D → D
  set_threshold tsh d = device.write threshold_hart0_m (bit_and tsh 7) d

  unfoldable pub next : D → Option ℕ × D
  next d = claimed (device.read claim_hart0_m d)

  unfoldable pub complete : ℕ → D → D
  complete id d = device.write claim_hart0_m id d
