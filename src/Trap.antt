-- ===== src/Trap.antt =====
-- src/arch/riscv64/trap.rs: what a trap does, from its cause to the address that it returns to.
-- The lines that it formats are reported apart from the UART; a read or a write of a device waits for as
-- long as the fuel allows, and `panic` stands for the rest.
pub mod Timer
pub mod External
mod Disk
mod Tests
use vesper.Prelude.{
  ℕ, ◌+◌, ◌*◌, ◌/◌, ◌%◌, ◌^◌, Bool, true, false, Option, none, some, List, [], ◌∷◌, ◌++◌, map,
  Outcome, done, panic, ◌>>=◌, bit_and, ◌==◌, ◌||◌, if◌then◌else◌,
}
use vesper.Mmio.{Device}
use vesper.PageFrame.{Heap, Memory, usize, page_size, zallocate}
use vesper.TrapFrame.{TrapFrame}
use vesper.Process.{Table, schedule}
use vesper.Minix.{Driver}
use vesper.Syscall.{Message, Next, resume, switch, Reply, do_syscall}
use vesper.Uart.{uart_base, new}
use vesper.Escape.{EscState}
use vesper.Escape.Console.{echo_interrupt}
use vesper.Plic.{uart0_irq, next, complete}
use vesper.Virtio.Device.{BlockDevice, DeviceType, Shared, pending_by_irq}

abbrev pub clint_mtimecmp : ℕ
clint_mtimecmp = 0x0200_4000

abbrev pub clint_mtime : ℕ
clint_mtime = 0x0200_bff8

abbrev pub timer_tick : ℕ
timer_tick = 10_000_000

abbrev pub trap_stack_pages : ℕ
trap_stack_pages = 4

-- `install`, up to the writes of `mscratch` and `mtvec`: the static frame with its stack, whose top is the
-- second component.
abbrev pub install_on :
    ℕ → TrapFrame → Option ℕ × Memory × Heap → Outcome (TrapFrame × ℕ × Memory × Heap)
install_on satp frame (none, mem, h) = panic
install_on satp frame (some stack, mem, h) =
    let top = usize (stack + trap_stack_pages * page_size) in
    done (record frame { satp = satp; trap_stack = top; hartid = 0 }, top, mem, h)

unfoldable pub install : ℕ → TrapFrame → Memory → Heap → Outcome (TrapFrame × ℕ × Memory × Heap)
install satp frame mem h = zallocate trap_stack_pages mem h >>= install_on satp frame

-- The `println!` of the handler.
pub data Report : Type 0 where
  software_interrupt : ℕ → Report
  page_fault : ℕ → ℕ → ℕ → ℕ → Report
  other_interrupt : ℕ → Report
  called : Message → Report

-- The statics of the kernel and its devices. The frame is that of the trap, and the buffer what a call left
-- in the caller's buffer (Syscall.Reply).
pub record Machine (D : Type 0) : Type 0 where
  pub table : Table
  pub heap : Heap
  pub mem : Memory
  pub frame : TrapFrame
  pub esc_state : EscState
  pub block_devices : List BlockDevice
  pub virtio_devices : List (Option DeviceType)
  pub access_fault_seen : Bool
  pub io : D
  pub reports : List Report
  pub buffer : Option (List ℕ)

abbrev pub report : {D : Type 0} → Report → Machine D → Machine D
report r m = record m { reports = m.reports ++ (r ∷ []) }

abbrev pub clear_access_fault : {D : Type 0} → Machine D → Machine D
clear_access_fault m = record m { access_fault_seen = false }

abbrev pub take_access_fault : {D : Type 0} → Machine D → Bool × Machine D
take_access_fault m = (m.access_fault_seen, record m { access_fault_seen = false })

-- The low twelve bits of `mcause`, and its highest one.
abbrev pub cause_num : ℕ → ℕ
cause_num cause = bit_and cause 0xfff

abbrev pub is_async : ℕ → Bool
is_async cause = cause / 2 ^ 63 % 2 == 1

abbrev pub of_option : {A : Type 0} → Option A → Outcome A
of_option none = panic
of_option (some a) = done a

-- Where a switch goes, if there is one.
abbrev pub tick_next : ℕ → Option (ℕ × ℕ) → Next
tick_next epc none = resume epc
tick_next epc (some (slot, pc)) = switch slot pc

abbrev pub of_reply : {D : Type 0} → Machine D → Reply → Next × Machine D
of_reply m r = (
  r.next,
  record m {
    table = r.table;
    heap = r.heap;
    frame = r.frame;
    reports = m.reports ++ map called r.output;
    buffer = r.buffer;
  },
)

module _ {D : Type 0} (device : Device D) where
  abbrev pub rearm_from : ℕ × D → D
  rearm_from (time, d) = device.write clint_mtimecmp (usize (time + timer_tick)) d

  unfoldable pub rearm : D → D
  rearm d = rearm_from (device.read clint_mtime d)

module _ {D : Type 0} (device : Device D) (shared : ℕ → Shared) (driver : Driver) (memory : ℕ → ℕ)
    (fuel : ℕ) where
  -- Cause 7.
  unfoldable pub timer : ℕ → Machine D → Outcome (Next × Machine D)
  unfolding rearm
  timer epc m = schedule epc m.table >>= λ r.
      let (r, t) = r in done (tick_next epc r, record m { table = t; io = rearm device m.io })

  -- `echo_uart`
  abbrev pub serve_uart : Machine D → Outcome (Machine D)
  serve_uart m = of_option (echo_interrupt device (new uart_base) fuel m.esc_state m.io) >>= λ r.
      let (s, d) = r in done (record m { esc_state = s; io = d })

  abbrev pub served : ℕ → Machine D → Bool × List BlockDevice × D → Machine D
  served id m (true, devices, d) = record m { block_devices = devices; io = d }
  served id m (false, devices, d) =
      report (other_interrupt id) (record m { block_devices = devices; io = d })

  abbrev pub serve_device : ℕ → Machine D → Outcome (Machine D)
  serve_device id m =
      pending_by_irq device shared id m.block_devices m.io >>= λ r. done (served id m r)

  abbrev pub serve : ℕ → Machine D → Outcome (Machine D)
  serve id m = if id == uart0_irq then serve_uart m else serve_device id m

  abbrev pub handle_source : Machine D → Option ℕ × D → Outcome (Machine D)
  handle_source m (none, d) = done (record m { io = d })
  handle_source m (some id, d) =
      serve id (record m { io = d }) >>= λ m'. done (record m' { io = complete device id m'.io })

  unfoldable pub handle_external : Machine D → Outcome (Machine D)
  unfolding next complete
  handle_external m = handle_source m (next device m.io)

  abbrev pub interrupt : ℕ → ℕ → ℕ → Machine D → Outcome (Next × Machine D)
  interrupt num epc hart m =
      if num == 3
      then done (resume epc, report (software_interrupt hart) m)
      else if num == 7
      then timer epc m
      else if num == 11
      then (handle_external m >>= λ m'. done (resume epc, m'))
      else panic

  abbrev pub ecall : ℕ → Machine D → Outcome (Next × Machine D)
  ecall epc m = do_syscall driver memory epc m.frame m.table m.heap >>= λ r. done (of_reply m r)

  abbrev pub exception : ℕ → ℕ → ℕ → ℕ → Machine D → Outcome (Next × Machine D)
  exception num epc tval hart m =
      if (num == 8) || (num == 9)
      then ecall epc m
      else if (num == 12) || ((num == 13) || (num == 15))
      then done (resume (usize (epc + 4)), report (page_fault num hart epc tval) m)
      else if (num == 5) || (num == 7)
      then done (resume (usize (epc + 4)), record m { access_fault_seen = true })
      else panic

  unfoldable pub m_trap : ℕ → ℕ → ℕ → ℕ → Machine D → Outcome (Next × Machine D)
  unfolding timer handle_external
  m_trap epc tval cause hart m =
      if is_async cause
      then interrupt (cause_num cause) epc hart m
      else exception (cause_num cause) epc tval hart m
