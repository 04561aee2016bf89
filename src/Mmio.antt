-- ===== src/Mmio.antt =====
-- Registers of a device at physical addresses, as the drivers reach them by volatile reads and writes. A
-- device is what the kernel does not implement: a state, and what an access answers and changes.
use vesper.Prelude.{ℕ}

pub record Device (D : Type 0) : Type 0 where
  pub read : ℕ → D → ℕ × D
  pub write : ℕ → ℕ → D → D
