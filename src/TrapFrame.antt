-- ===== src/TrapFrame.antt =====
-- src/arch/riscv64/trap_frame.rs: the registers that the trap vector saves and restores.
use vesper.Prelude.{ℕ, List, replicate}

-- Registers and addresses are 64-bit words; a null pointer is 0.
pub record TrapFrame : Type 0 where
  pub regs : List ℕ
  pub fregs : List ℕ
  pub satp : ℕ
  pub trap_stack : ℕ
  pub hartid : ℕ

unfoldable pub empty : TrapFrame
empty = record {
  regs = replicate 32 0;
  fregs = replicate 32 0;
  satp = 0;
  trap_stack = 0;
  hartid = 0;
}
