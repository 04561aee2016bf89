-- ===== src/Boot/Kernel/Tests.antt =====
-- A kernel of 64 KiB in a memory of 4 MiB.
use vesper.Prelude.{
  ℕ, ◌*◌, ◌/◌, ◌%◌, ◌^◌, ◌<◌, ◌≡◌, refl, some, none, arith, replicate, done, if◌then◌else◌,
}
use vesper.PageFrame.{Heap, page_size}
use vesper.Sv39.{Space, v2p}
use vesper.Boot.Kernel.{build_page_table}
use vesper.Boot.Kernel.Linker.{Symbols, IsLaidOut}
use vesper.Boot.Kernel.Sections.{covers, all_pages}
use vesper.Boot.Kernel.Identity.{sections, HasRoom, build_page_table-identity}

-- Memory from 0x8000_0000 on.
abbrev symbols : Symbols
symbols = record {
  text_start = 0x8000_0000;
  text_end = 0x8000_7a10;
  rodata_start = 0x8000_8000;
  rodata_end = 0x8000_9c31;
  data_start = 0x8000_a000;
  data_end = 0x8000_a100;
  bss_start = 0x8000_a100;
  bss_end = 0x8000_f400;
  stack_start = 0x8000_f400;
  stack_end = 0x8008_f400;
  heap_start = 0x8008_f400;
  heap_size = 0x37_0c00;
  memory_end = 0x8040_0000;
}

symbols-IsLaidOut : IsLaidOut symbols
symbols-IsLaidOut = record {
  text_fits = omega arith;
  rodata_fits = omega arith;
  data_fits = omega arith;
  bss_fits = omega arith;
  stack_fits = omega arith;
  heap_fits = omega arith;
  text_low = omega arith;
  rodata_low = omega arith;
  data_low = omega arith;
  bss_low = omega arith;
  stack_low = omega arith;
  memory_low = omega arith;
}

abbrev heap : Heap
heap = record {
  heap_start = symbols.heap_start;
  heap_size = symbols.heap_size;
  alloc_start = 0;
  table = replicate 0x370 0xff;
}

heap-HasRoom : HasRoom symbols heap
heap-HasRoom = record { start = refl; size = refl; descriptors = refl; room = omega arith }

build_page_table-identity_example :
    (satp : ℕ) × (root : ℕ) × (s : Space) × (build_page_table symbols (λ a. 0) heap
      ≡ done (satp, s))
    × (satp / 2 ^ 60 ≡ 8)
    × (satp % 2 ^ 44 * page_size ≡ root)
    × ((w : ℕ)
        → w < 2 ^ 39
        → v2p s.mem root w ≡ done (if covers (sections symbols) w then some w else none))
build_page_table-identity_example =
    build_page_table-identity symbols (λ a. 0) heap symbols-IsLaidOut heap-HasRoom

tables_run : all_pages (sections symbols) ≡ 18
tables_run = refl
