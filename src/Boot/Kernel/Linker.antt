-- ===== src/Boot/Kernel/Linker.antt =====
-- src/linker/mod.rs: the addresses that the linker script gives.
use vesper.Prelude.{ℕ, ◌≤◌, ◌≡◌, ◌+◌, ◌^◌}
use vesper.PageFrame.{page_size}

-- What each accessor returns.
pub record Symbols : Type 0 where
  pub text_start : ℕ
  pub text_end : ℕ
  pub rodata_start : ℕ
  pub rodata_end : ℕ
  pub data_start : ℕ
  pub data_end : ℕ
  pub bss_start : ℕ
  pub bss_end : ℕ
  pub stack_start : ℕ
  pub stack_end : ℕ
  pub heap_start : ℕ
  pub heap_size : ℕ
  pub memory_end : ℕ

-- Each section ends behind its start, all of them in the low 39 bits with a page to round up in, and the
-- heap reaches to the end of the memory.
pub record IsLaidOut (sym : Symbols) : Type 0 where
  pub text_fits : sym.text_start ≤ sym.text_end
  pub rodata_fits : sym.rodata_start ≤ sym.rodata_end
  pub data_fits : sym.data_start ≤ sym.data_end
  pub bss_fits : sym.bss_start ≤ sym.bss_end
  pub stack_fits : sym.stack_start ≤ sym.stack_end
  pub heap_fits : sym.heap_start + sym.heap_size ≡ sym.memory_end
  pub text_low : sym.text_end + page_size ≤ 2 ^ 39
  pub rodata_low : sym.rodata_end + page_size ≤ 2 ^ 39
  pub data_low : sym.data_end + page_size ≤ 2 ^ 39
  pub bss_low : sym.bss_end + page_size ≤ 2 ^ 39
  pub stack_low : sym.stack_end + page_size ≤ 2 ^ 39
  pub memory_low : sym.memory_end + page_size ≤ 2 ^ 39
