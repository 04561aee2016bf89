-- ===== src/Trap/Tests.antt =====
-- Traps of src/arch/riscv64/trap.rs on a UART that waits with two bytes and a controller that has its interrupt.
use vesper.Prelude.{
  ℕ, suc, ◌+◌, ◌%◌, ◌^◌, ◌≡◌, ◌≢◌, refl, ap, false, Option, none, some, List, [], ◌∷◌, map, arith,
  replicate, done, ◌==◌, if◌then◌else◌, ne→==, ==_iff, Bool-cases, inl, inr,
}
use vesper.Mmio.{Device}
use vesper.Process.{Process, Table, running}
use vesper.Process.Schedule.{IsTable, Saved}
use vesper.Syscall.{Next}
use vesper.Minix.{Driver}
use vesper.Uart.{uart_base, new}
use vesper.Uart.Line.{Line, Behaves}
use vesper.Uart.Keeps.{Untouched}
use vesper.Uart.Sample.{State, device-Behaves}
use vesper.Uart.Sample as Sample
use vesper.Escape.{csi_open, idle, echo_uart}
use vesper.Plic.{claim_hart0_m}
use vesper.Plic.Context.{Context, Claims, others}
use vesper.Virtio.Device.{BlockDevice, Shared, empty_device, mmio_start, interrupt_ack}
use vesper.Virtio.Device.Idle.{IsIdle}
use vesper.Trap.{Machine, m_trap, handle_external}
use vesper.Trap.Timer.{Turn, m_trap-timer}
use vesper.Trap.Disk.{DiskApart, handle_external-disk}
use vesper.Trap.External.{LineApart, handle_external-uart}

-- The sources are numbered from 1 on.
record Board : Type 0 where
  uart : State
  sources : List ℕ
  serving : Option ℕ

abbrev claim : Board → List ℕ → ℕ × Board
claim b [] = (0, b)
claim b (n ∷ ns) = (suc n, record b { sources = ns; serving = some (suc n) })

-- The UART's source waits again as long as there are bytes.
abbrev again : ℕ → List ℕ → List ℕ → List ℕ
again v [] ns = ns
again v (b ∷ bs) ns = if v == 10 then 9 ∷ ns else ns

abbrev complete : ℕ → Board → Board
complete v b = record b { serving = none; sources = again v b.uart.received b.sources }

again-others : (v : ℕ) (bs ns : List ℕ) → others v (map suc (again v bs ns)) ≡ others v (map suc ns)
again-others v [] ns = refl
again-others v (b ∷ bs) ns = elim (Bool-cases (v == 10)) [
  | inl is ↦ let same : v ≡ 10 = (==_iff v 10).0 is in rw same refl
  | inr other ↦ rw other refl
]

abbrev board : Device Board
board = record {
  read = λ a b.
      if a == claim_hart0_m
      then claim b b.sources
      else let (v, u) = (Sample.device).read a b.uart in (v, record b { uart = u });
  write = λ a v b.
      if a == claim_hart0_m
      then complete v b
      else record b { uart = (Sample.device).write a v b.uart };
}

abbrev line : Line Board
line = record { sent = λ b. b.uart.sent; received = λ b. b.uart.received; delay = λ b. b.uart.busy }

abbrev context : Context Board
context = record { waiting = λ b. map suc b.sources; serving = λ b. b.serving }

board-Behaves : Behaves board (new uart_base) line 2
board-Behaves =
    let s = device-Behaves in
    record {
      status_sent = λ b. s.status_sent b.uart;
      status_received = λ b. s.status_received b.uart;
      status_busy = λ b. s.status_busy b.uart;
      status_empty = λ b. s.status_empty b.uart;
      status_none = λ b. s.status_none b.uart;
      status_some = λ b. s.status_some b.uart;
      hand_out = λ b. s.hand_out b.uart;
      send = λ b. s.send b.uart;
    }

claim-source :
    (b : Board) (ns : List ℕ) (id : ℕ) (ids : List ℕ)
    → map suc ns ≡ id ∷ ids
    → ((claim b ns).0 ≡ id)
      × (id ≢ 0)
      × (map suc ((claim b ns).1).sources ≡ ids)
      × (((claim b ns).1).serving ≡ some id)
claim-source b [] id ids e = absurd (cc)
claim-source b (n ∷ ns) id ids e =
    let same : suc n ≡ id = cc in (same, omega (arith, same), cc, ap some same)

claim-none : (b : Board) (ns : List ℕ) → map suc ns ≡ [] → (claim b ns).0 ≡ 0
claim-none b [] e = refl
claim-none b (n ∷ ns) e = absurd (cc)

board-Claims : Claims board context
board-Claims = record {
  nothing = λ b e. claim-none b b.sources e;
  source = λ b id ids e. claim-source b b.sources id ids e;
  completion = λ b id e. (refl, again-others id b.uart.received b.sources);
}

claim-uart : (b : Board) (ns : List ℕ) → ((claim b ns).1).uart ≡ b.uart
claim-uart b [] = refl
claim-uart b (n ∷ ns) = refl

board-LineApart : LineApart board line
board-LineApart = record {
  claim_sent = λ b. ap (λ (u : State). u.sent) (claim-uart b b.sources);
  claim_received = λ b. ap (λ (u : State). u.received) (claim-uart b b.sources);
  claim_delay = λ b. ap (λ (u : State). u.busy) (claim-uart b b.sources);
  complete_sent = λ id b. refl;
  complete_received = λ id b. refl;
}

apart : (offset : ℕ) → (uart_base + offset == claim_hart0_m) ≡ false
apart offset = ne→== (uart_base + offset) claim_hart0_m (λ e. omega arith)

waiting-Untouched : Untouched board (new uart_base) (λ b. others 10 (context.waiting b))
waiting-Untouched = record {
  on_read = λ offset b. rw (apart offset) refl;
  on_write = λ offset v b. rw (apart offset) refl;
}

serving-Untouched : Untouched board (new uart_base) context.serving
serving-Untouched = record {
  on_read = λ offset b. rw (apart offset) refl;
  on_write = λ offset v b. rw (apart offset) refl;
}

abbrev shared : ℕ → Shared
shared slot = record {
  desc = λ i. record { addr = 0; len = 0; flags = 0; next = 0 };
  avail_idx = 0;
  avail_ring = λ i. 0;
  used_idx = 0;
  used_ring = λ i. 0;
  requests = λ i. record { header = record { blktype = 0; reserved = 0; sector = 0 }; buffer = 0 };
  bytes = λ i. 0;
}

abbrev driver : Driver
driver dev size off h = none

abbrev thread : ℕ → ℕ → Process
thread pid pc = record {
  frame = record { regs = []; fregs = []; satp = 0; trap_stack = 0; hartid = 0 };
  stack = 0;
  pc = pc;
  pid = pid;
  state = running;
}

abbrev two : Table
two = record {
  slots = some (thread 1 100) ∷ some (thread 2 200) ∷ replicate 14 none;
  current = some 0;
}

two-IsTable : IsTable two
two-IsTable = record { sized = refl; within = λ i e. ground arith }

-- Behind `ESC [`, with `C` and a letter on the line.
abbrev machine : Machine Board
machine = record {
  table = two;
  heap = record { heap_start = 0; heap_size = 0; alloc_start = 0; table = [] };
  mem = λ a. 0;
  frame = record { regs = []; fregs = []; satp = 0; trap_stack = 0; hartid = 0 };
  esc_state = csi_open;
  block_devices = [];
  virtio_devices = [];
  access_fault_seen = false;
  io = record {
    uart = record { sent = []; received = b'C' ∷ b'x' ∷ []; busy = 2 };
    sources = 9 ∷ 0 ∷ [];
    serving = none;
  };
  reports = [];
  buffer = none;
}

handle_external-uart_example :
    (d : Board) × (handle_external board shared driver (λ a. 0) 3 machine
      ≡ done (record machine { esc_state = idle; io = d }))
    × (line.sent d ≡ (echo_uart csi_open (some b'C')).1)
    × (line.received d ≡ b'x' ∷ [])
    × (others 10 (context.waiting d) ≡ 1 ∷ [])
    × (context.serving d ≡ none)
unfolding echo_uart
handle_external-uart_example =
    handle_external-uart board shared driver (λ a. 0) 3 line 2 context board-Behaves board-Claims
      board-LineApart waiting-Untouched serving-Untouched (omega arith) machine (1 ∷ []) b'C'
      (b'x' ∷ []) refl refl (omega arith)

m_trap-timer_example :
    (n : Next) × (t : Table) × (m_trap board shared driver (λ a. 0) 3 104 0 (2 ^ 63 + 7) 0 machine
      ≡ done (
        n,
        record machine {
          table = t;
          io =
              (board.write) 0x0200_4000
                (((board.read 0x0200_bff8 machine.io).0 + 10_000_000) % 2 ^ 64)
                ((board.read 0x0200_bff8 machine.io).1);
        },
      ))
    × IsTable t
    × Saved 104 two t.slots
    × Turn 104 two t n
m_trap-timer_example = m_trap-timer board shared driver (λ a. 0) 3 104 0 0 machine two-IsTable

-- The same controller with a disk in the second slot, whose interrupt status reads as 5.
abbrev disk_board : Device Board
disk_board = record {
  read = λ a b. if a == claim_hart0_m then claim b b.sources else (5, b);
  write = λ a v b. if a == claim_hart0_m then record b { serving = none } else b;
}

disk_board-Claims : Claims disk_board context
disk_board-Claims = record {
  nothing = λ b e. claim-none b b.sources e;
  source = λ b id ids e. claim-source b b.sources id ids e;
  completion = λ b id e. (refl, refl);
}

abbrev disk : BlockDevice
disk = record empty_device { dev = mmio_start + 0x1000 }

disk-DiskApart : DiskApart disk_board context disk.dev 2
disk-DiskApart = record {
  status_waiting = λ b. refl;
  status_serving = λ b. refl;
  ack_waiting = λ v b. refl;
  lowered = λ v b. refl;
  ack_serving = λ v b. refl;
}

disk-IsIdle : IsIdle disk (shared 1)
disk-IsIdle = record { free = refl; heads = refl; acked = refl; small = omega arith }

abbrev asked : Machine Board
asked = record machine {
  block_devices = empty_device ∷ disk ∷ [];
  io = record (machine.io) { sources = 1 ∷ 9 ∷ [] };
}

abbrev answered : Board
answered = record (asked.io) { sources = 9 ∷ []; serving = some 2 }

handle_external-disk_example :
    (d' : Board) × (handle_external disk_board shared driver (λ a. 0) 3 asked
      ≡ done (record asked { io = d' }))
    × (d'
        ≡ (disk_board.write) claim_hart0_m 2
            ((disk_board.write) (disk.dev + interrupt_ack) 1 answered))
    × (context.waiting d' ≡ 10 ∷ [])
    × (context.serving d' ≡ none)
handle_external-disk_example =
    handle_external-disk disk_board shared driver (λ a. 0) 3 context disk_board-Claims asked 1 5
      (10 ∷ []) answered disk-DiskApart (omega arith) (ground arith) disk-IsIdle refl refl
      (ground arith)
