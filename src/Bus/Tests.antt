-- ===== src/Bus/Tests.antt =====
-- A bus of src/drivers/virtio/bus.rs with registers that keep what is written.
use vesper.Prelude.{
  ℕ, ◌+◌, ◌*◌, ◌≡◌, refl, true, false, none, some, [], ◌∷◌, arith, replicate, set, done, ◌==◌,
  if◌then◌else◌,
}
use vesper.PageFrame.{Heap, page_size, allocate, zallocate, fill_zero}
use vesper.PageFrame.Segments.{gaps, render}
use vesper.Minix.{Driver}
use vesper.Escape.{idle}
use vesper.Virtio.Device.{Shared, block, empty_device, irq}
use vesper.Trap.{Machine}
use vesper.Bus.{Bus, val, host_features, queue_num_max, status, set_up, setup_block_device}
use vesper.Bus.Refused.{Refuses, setup_block_device-refused}
use vesper.Bus.Setup.{Accepts, setup_block_device-done}

abbrev shared : ℕ → Shared
shared slot = record {
  desc = λ i. record { addr = 0; len = 0; flags = 0; next = 0 };
  avail_idx = 0;
  avail_ring = λ i. 0;
  used_idx = 0;
  used_ring = λ i. 0;
  requests = λ i. record { header = record { blktype = 0; reserved = 0; sector = 0 }; buffer = 0 };
  bytes = λ i. 0;
}

abbrev driver : Driver
driver dev size off h = none

-- The second slot's address.
abbrev ptr : ℕ
ptr = 0x1000_2000

-- Features 0x21 are offered, among them that of a read-only disk; eight entries fit; the state is the last
-- status written.
abbrev answer : ℕ → ℕ → ℕ
answer a s =
    if a == ptr + val host_features
    then 0x21
    else if a == ptr + val queue_num_max
    then 8
    else if a == ptr + val status
    then s
    else 0

abbrev card : Bus ℕ
card = record {
  device = record {
    read = λ a s. (answer a s, s);
    write = λ a v s. if a == ptr + val status then v else s;
  };
  faults = λ a s. false;
}

card-Accepts : Accepts card ptr 0x21
card-Accepts = record {
  reached = λ off d. refl;
  offered = λ d. refl;
  agreed = λ d. refl;
  roomy = λ d. refl;
}

abbrev heap : Heap
heap = record {
  heap_start = 0x8000_0000;
  heap_size = 10 * page_size;
  alloc_start = 0x8000_1000;
  table = render (gaps 10);
}

abbrev machine : ℕ → Machine ℕ
machine io = record {
  table = record { slots = []; current = none };
  heap = heap;
  mem = λ a. 0;
  frame = record { regs = []; fregs = []; satp = 0; trap_stack = 0; hartid = 0 };
  esc_state = idle;
  block_devices = replicate 8 empty_device;
  virtio_devices = replicate 8 none;
  access_fault_seen = false;
  io = io;
  reports = [];
  buffer = none;
}

abbrev heap_after : Heap
heap_after = record heap { table = 1 ∷ 3 ∷ replicate 8 0 }

granted :
    zallocate 2 (λ a. 0) heap
    ≡ done (some 0x8000_1000, fill_zero 0x8000_1000 1024 (λ a. 0), heap_after)
unfolding zallocate allocate
granted = refl

setup_block_device-done_example :
    (setup_block_device card shared driver (λ a. 0) 1 0x8000_0100 ptr (machine 0)
      ≡ done (
        some tt,
        record (machine 0) {
          access_fault_seen = false;
          io = 15;
          mem = fill_zero 0x8000_1000 1024 (λ a. 0);
          heap = heap_after;
          block_devices = set (replicate 8 empty_device) 1 (set_up ptr 0x8000_1000 0x21);
          virtio_devices = set (replicate 8 none) 1 (some block);
        },
      ))
    × (irq (set_up ptr 0x8000_1000 0x21) ≡ some 2)
setup_block_device-done_example =
    setup_block_device-done card shared driver (λ a. 0) 1 0x8000_0100 ptr 0x21 card-Accepts
      (machine 0) 0x8000_1000 (fill_zero 0x8000_1000 1024 (λ a. 0)) heap_after (omega arith)
      (omega arith) granted

-- A card whose status reads as 0.
abbrev stubborn : Bus ℕ
stubborn = record card {
  device = record (card.device) { read = λ a s. (if a == ptr + 0x10 then 0x21 else 0, s) };
}

stubborn-Refuses : Refuses stubborn ptr 0x21
stubborn-Refuses = record { reached = λ off d. refl; offered = λ d. refl; refused = λ d. refl }

setup_block_device-refused_example :
    setup_block_device stubborn shared driver (λ a. 0) 1 0x8000_0100 ptr (machine 0)
    ≡ done (none, machine 128)
setup_block_device-refused_example =
    setup_block_device-refused stubborn shared driver (λ a. 0) 1 0x8000_0100 ptr 0x21
      stubborn-Refuses (machine 0)

-- The same card where every access faults.
abbrev deaf : Bus ℕ
deaf = record card { faults = λ a s. true }
