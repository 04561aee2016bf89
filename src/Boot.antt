-- ===== src/Boot.antt =====
-- src/boot/entry.rs: what `kinit` does to the page table and to the interrupt controller, and the `satp` of
-- src/arch/riscv64/paging.rs.
pub mod Listing
pub mod Loading
pub mod Disk
pub mod Route
mod Sections
pub mod Kernel
mod Tests
use vesper.Prelude.{
  ℕ, ◌+◌, ◌-◌, ◌*◌, ◌/◌, ◌%◌, ◌^◌, Option, none, some, List, [], ◌∷◌, Outcome, done, panic, ◌>>=◌,
  bit_and, bit_or, ◌==◌, if◌then◌else◌,
}
use vesper.Mmio.{Device}
use vesper.PageFrame.{usize, page_size}
use vesper.Plic.{uart0_irq, enable, set_priority, set_threshold}
use vesper.Virtio.Device.{BlockDevice, configured_irqs}
use vesper.Sv39.{Space, id_map_range}

-- `addr & !(align - 1)`, for an `align` that is not 0.
unfoldable pub align_down : ℕ → ℕ → ℕ
align_down addr align = bit_and addr (2 ^ 64 - align)

-- `next_multiple_of`; an overflow panics.
unfoldable pub align_up : ℕ → ℕ → Outcome ℕ
align_up addr align =
    let up = (addr + align - 1) / align * align in if usize up == up then done up else panic

unfoldable pub map_section : ℕ → ℕ → ℕ → ℕ → Space → Outcome Space
unfolding align_down align_up
map_section root start end bits s =
    align_up end page_size >>= λ top. id_map_range root (align_down start page_size) top bits s

unfoldable pub make_satp_sv39 : ℕ → ℕ
make_satp_sv39 root_table_addr = bit_or (usize (8 * 2 ^ 60)) (root_table_addr / 2 ^ 12)

module _ {D : Type 0} (device : Device D) where
  -- `plic::enable(irq); plic::set_priority(irq, 1)`
  abbrev pub let_through : ℕ → D → Outcome D
  let_through irq d = enable device irq d >>= λ d'. done (set_priority device irq 1 d')

  -- `for irq in configured_irqs().into_iter().flatten()`
  unfoldable pub let_all_through : List (Option ℕ) → D → Outcome D
  unfolding enable set_priority
  let_all_through [] d = done d
  let_all_through (none ∷ irqs) d = let_all_through irqs d
  let_all_through (some irq ∷ irqs) d = let_through irq d >>= let_all_through irqs

  -- The UART's interrupt, in front of `probe`.
  unfoldable pub route_uart : D → Outcome D
  unfolding enable set_priority set_threshold
  route_uart d = let_through uart0_irq (set_threshold device 0 d)

  -- The block devices' interrupts, behind it.
  unfoldable pub route_devices : List BlockDevice → D → Outcome D
  unfolding let_all_through
  route_devices devices d = let_all_through (configured_irqs devices) d
