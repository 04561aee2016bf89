-- ===== src/Boot/Kernel.antt =====
-- The page table that `kinit` of src/boot/entry.rs builds, from the symbols of src/linker/mod.rs.
pub mod Linker
mod Sections
mod Identity
mod Tests
use vesper.Prelude.{ℕ, ◌+◌, ◌==◌, Option, none, some, bit_or, Outcome, done, panic, ◌>>=◌}
use vesper.PageFrame.{Heap, Memory, page_size, init, zallocate}
use vesper.Sv39.PteFlags
use vesper.Sv39.{Space}
use vesper.Uart.{uart_base}
use vesper.Virtio.Device.{mmio_start}
use vesper.Bus.{mmio_end, mmio_stride}
use vesper.Boot.{align_down, map_section, make_satp_sv39}
use vesper.Boot.Kernel.Linker.{Symbols}

-- `READ | EXECUTE | ACCESSED`, and so on.
abbrev pub rx_flags : ℕ
rx_flags = PteFlags.bitor (PteFlags.bitor PteFlags.read PteFlags.execute) PteFlags.accessed

abbrev pub ro_flags : ℕ
ro_flags = PteFlags.bitor PteFlags.read PteFlags.accessed

abbrev pub rw_flags : ℕ
rw_flags =
    PteFlags.bitor (PteFlags.bitor (PteFlags.bitor PteFlags.read PteFlags.write) PteFlags.accessed)
      PteFlags.dirty

-- The calls of `map_section`, in their order.
unfoldable pub map_kernel : Symbols → ℕ → Space → Outcome Space
unfolding align_down map_section
map_kernel sym root s = map_section root sym.text_start sym.text_end rx_flags s >>= λ s.
    map_section root sym.rodata_start sym.rodata_end ro_flags s >>= λ s.
    map_section root sym.data_start sym.data_end rw_flags s >>= λ s.
    map_section root sym.bss_start sym.bss_end rw_flags s >>= λ s.
    map_section root sym.stack_start sym.stack_end rw_flags s >>= λ s.
    map_section root sym.heap_start sym.memory_end rw_flags s >>= λ s.
    map_section root (align_down uart_base page_size) (align_down uart_base page_size + page_size)
      rw_flags s
    >>= λ s. map_section root mmio_start (mmio_end + mmio_stride) rw_flags s >>= λ s. done s

-- `expect("OOM allocating root page table")`, and the table that is built.
abbrev pub with_root_table : Symbols → Option ℕ × Memory × Heap → Outcome (ℕ × Space)
with_root_table sym (none, mem, h) = panic
with_root_table sym (some root, mem, h) =
    map_kernel sym root (record { mem = mem; heap = h }) >>= λ s. done (make_satp_sv39 root, s)

-- From `page_frame::init` to the call of `make_satp_sv39`: `satp`, and what is then in memory.
unfoldable pub build_page_table : Symbols → Memory → Heap → Outcome (ℕ × Space)
unfolding init zallocate map_kernel make_satp_sv39
build_page_table sym mem h = zallocate 1 mem (init h) >>= with_root_table sym
