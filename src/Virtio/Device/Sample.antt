-- ===== src/Virtio/Device/Sample.antt =====
-- A block device of src/drivers/virtio/device.rs over hardware that writes the status in its second step and the used
-- ring in its third, and the slots.
use vesper.Prelude.{
  ℕ, zero, suc, ◌+◌, ◌-◌, ◌*◌, ◌%◌, ◌^◌, ◌≡◌, refl, true, false, inl, inr, some, List, ◌∷◌, arith,
  replicate,
}
use vesper.PageFrame.{Heap, page_size}
use vesper.PageFrame.Segments.{gaps, render}
use vesper.PageFrame.Ready.{IsReady}
use vesper.Virtio.Device.{
  BlockDevice, Shared, Hardware, World, ring_size, write_at, empty_device, mmio_start, first_device,
  first_block_device,
}
use vesper.Virtio.{link_chain}
use vesper.Virtio.Device.Idle.{IsIdle}
use vesper.Virtio.Device.Serve.{Writes}

abbrev pub heap : Heap
heap = record {
  heap_start = 0x8000_0000;
  heap_size = 10 * page_size;
  alloc_start = 0x8000_1000;
  table = render (gaps 10);
}

pub heap-IsReady : IsReady 2 heap
heap-IsReady = record {
  segments = gaps 10;
  limit = 9;
  placed = omega arith;
  held = refl;
  inside = omega arith;
  spare = omega arith;
}

-- The head of the chain that was made available last, and where its third descriptor wants the status.
abbrev newest : Shared → ℕ
newest s = s.avail_ring ((s.avail_idx + 2 ^ 16 - 1) % 2 ^ 16 % ring_size)

abbrev status_at : Shared → ℕ
status_at s = (s.desc ((s.desc ((s.desc (newest s)).next)).next)).addr

abbrev step : ℕ → Shared → ℕ × Shared
step zero s = (0, s)
step (suc zero) s = (
  0,
  record s {
    used_idx = (s.used_idx + 1) % 2 ^ 16;
    used_ring = write_at (s.used_idx % ring_size) (newest s) s.used_ring;
  },
)
step (suc (suc zero)) s = (1, record s { bytes = write_at (status_at s) 0 s.bytes })
step (suc (suc (suc k))) s = (suc (suc k), s)

abbrev pub hardware : Hardware ℕ
hardware = record { notify = λ e. 3; work = step }

abbrev pub shared : Shared
shared = record {
  desc = λ i. record { addr = 0; len = 0; flags = 0; next = 0 };
  avail_idx = 7;
  avail_ring = λ i. 0;
  used_idx = 7;
  used_ring = λ i. 0;
  requests = λ i. record { header = record { blktype = 0; reserved = 0; sector = 0 }; buffer = 0 };
  bytes = λ i. 0;
}

abbrev pub disk : BlockDevice
disk = record empty_device { dev = mmio_start + 0x1000; ack_used_idx = 7 }

abbrev pub world : World ℕ
world = record { device = disk; shared = shared; env = 0; heap = heap }

pub disk-IsIdle : IsIdle disk shared
disk-IsIdle = record { free = refl; heads = refl; acked = refl; small = omega arith }

abbrev pub slots : List BlockDevice
slots = empty_device ∷ disk ∷ record disk { read_only = true } ∷ replicate 5 empty_device

pub first_configured : first_block_device slots ≡ some 1
unfolding first_device
first_configured = refl

pub hardware-Writes : (req : ℕ) → Writes hardware 1 0x9000 1024 2048 false world req
unfolding link_chain
hardware-Writes req = (
  1,
  omega arith,
  (
    record { index = refl; desc = refl; status = ground arith },
    (
      record { desc = refl; status = ground arith; ring = inl refl },
      record { desc = refl; status = ground arith; ring = inr (refl, ground arith) },
    ),
  ),
)
