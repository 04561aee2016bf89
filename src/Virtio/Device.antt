-- ===== src/Virtio/Device.antt =====
-- src/drivers/virtio/device.rs: requests to the block devices, and their completion.
-- The device shares the rings and the memory with the driver, and works between two looks of the driver at them.
pub mod Idle
pub mod Interrupt
mod Poll
mod Refuse
mod Serve
pub mod Sample
mod Tests
use vesper.Prelude.{
  ℕ, zero, suc, ◌+◌, ◌-◌, ◌*◌, ◌/◌, ◌%◌, ◌^◌, Bool, true, false, not, ◌&&◌, Option, none, some,
  List, [], ◌∷◌, Outcome, done, panic, map_done, ◌>>=◌, ltb, leb, ◌==◌, if◌then◌else◌, get_or, set,
  replicate, map, bit_and,
}
use vesper.Mmio.{Device}
use vesper.PageFrame.{Heap, allocate, deallocate}
use vesper.Virtio.{Descriptor, Transfer, alloc_desc_chain, free_desc_chain, link_chain}

abbrev pub ring_size : ℕ
ring_size = 8

abbrev pub max_devices : ℕ
max_devices = 8

abbrev pub status_pending : ℕ
status_pending = 0xff

abbrev pub blk_t_in : ℕ
blk_t_in = 0

abbrev pub blk_t_out : ℕ
blk_t_out = 1

abbrev pub irq_base : ℕ
irq_base = 1

abbrev pub mmio_start : ℕ
mmio_start = 0x1000_1000

-- Pointers are addresses, and null is 0.
pub record QueueState : Type 0 where
  pub desc : ℕ
  pub avail : ℕ
  pub used : ℕ
  pub free : List Bool
  pub req_head : List ℕ

abbrev pub empty_queue : QueueState
empty_queue = record {
  desc = 0;
  avail = 0;
  used = 0;
  free = replicate ring_size true;
  req_head = replicate ring_size 0;
}

pub record BlockDevice : Type 0 where
  pub dev : ℕ
  pub queue : QueueState
  pub ack_used_idx : ℕ
  pub read_only : Bool

abbrev pub empty_device : BlockDevice
empty_device = record { dev = 0; queue = empty_queue; ack_used_idx = 0; read_only = false }

pub data DeviceType : Type 0 where
  block entropy unknown : DeviceType

unfoldable pub irq : BlockDevice → Option ℕ
irq b =
    if b.dev == 0
    then none
    else some ((irq_base + (b.dev + 2 ^ 64 - mmio_start) % 2 ^ 64 / 2 ^ 12 % 2 ^ 32) % 2 ^ 32)

-- The header of a request, on disk 512 bytes a sector.
pub record Header : Type 0 where
  pub blktype : ℕ
  pub reserved : ℕ
  pub sector : ℕ

-- `Request`, less its status, which the device writes.
pub record Request : Type 0 where
  pub header : Header
  pub buffer : ℕ

-- What a driver and its device share: the three rings, and the requests and buffers in memory. An entry
-- of the used ring is its `id`.
pub record Shared : Type 0 where
  pub desc : ℕ → Descriptor
  pub avail_idx : ℕ
  pub avail_ring : ℕ → ℕ
  pub used_idx : ℕ
  pub used_ring : ℕ → ℕ
  pub requests : ℕ → Request
  pub bytes : ℕ → ℕ

abbrev pub write_at {ℓ} : {A : Type ℓ} → ℕ → A → (ℕ → A) → ℕ → A
write_at at v f i = if i == at then v else f i

-- The offset of `status` in `Request`, behind the header and the pointer to the data.
abbrev pub status_offset : ℕ
status_offset = 24

-- One round of `pending`; the entry names a descriptor. A chain visits at most `ring_size` descriptors,
-- unless it is a cycle, which `panic` stands for, too.
abbrev pub complete : (ℕ → Descriptor) → ℕ → BlockDevice → Outcome BlockDevice
complete desc head b =
    if leb ring_size head
    then done b
    else free_desc_chain ring_size desc head b.queue.free >>= λ free. done (record b {
      queue = record (b.queue) { free = free; req_head = set b.queue.req_head head 0 };
    })

abbrev pub acknowledge : BlockDevice → BlockDevice
acknowledge b = record b { ack_used_idx = (b.ack_used_idx + 1) % 2 ^ 16 }

-- `while bd.ack_used_idx != used.idx`, for at most `n` rounds.
unfoldable pub pending_from : ℕ → Shared → BlockDevice → Outcome BlockDevice
pending_from zero s b = done b
pending_from (suc n) s b =
    let round =
      complete s.desc (s.used_ring (b.ack_used_idx % ring_size)) (acknowledge b)
      >>= pending_from n s in
    if b.ack_used_idx == s.used_idx then done b else round

-- The rounds are the distance of the two 16-bit indices.
unfoldable pub pending : Shared → BlockDevice → Outcome BlockDevice
unfolding pending_from
pending s b = pending_from ((s.used_idx + 2 ^ 16 - b.ack_used_idx) % 2 ^ 16) s b

-- `(*req).header = ..`, `(*req).data = ..`, `(*req).status = ..`
abbrev pub write_request : ℕ → ℕ → ℕ → Bool → Shared → Shared
write_request req buffer offset write s = record s {
  requests =
      write_at req
        (record {
          header = record {
            blktype = if write then blk_t_out else blk_t_in;
            reserved = 0;
            sector = offset / 512;
          };
          buffer = buffer;
        })
        s.requests;
  bytes = write_at (req + status_offset) status_pending s.bytes;
}

-- The chain is written and made available.
abbrev pub publish : Transfer → ℕ × ℕ × ℕ → Shared → Shared
publish t (head, body, stat) s = record s {
  desc = link_chain t (head, body, stat) s.desc;
  avail_ring = write_at (s.avail_idx % ring_size) head s.avail_ring;
  avail_idx = (s.avail_idx + 1) % 2 ^ 16;
}

-- A device: what the write to `QueueNotify` does to it, and what it does between two looks of the driver.
pub record Hardware (E : Type 0) : Type 0 where
  pub notify : E → E
  pub work : E → Shared → E × Shared

-- A device of the driver with what it shares with the hardware in its slot.
pub record World (E : Type 0) : Type 0 where
  pub device : BlockDevice
  pub shared : Shared
  pub env : E
  pub heap : Heap

module _ {E : Type 0} (hardware : Hardware E) where
  -- `loop { pending(bdev); if (*req).status != STATUS_PENDING { break; } }`, for at most `fuel` rounds. The
  -- device works both before the used ring is looked at and before the status is.
  abbrev pub polled : ℕ → (World E → Outcome (World E)) → World E → Outcome (World E)
  polled status more w =
      let again = more w in if (w.shared).bytes status == status_pending then again else done w

  abbrev pub work_once : World E → World E
  work_once w = let (e, s) = hardware.work w.env w.shared in record w { env = e; shared = s }

  unfoldable pub poll : ℕ → ℕ → World E → Outcome (World E)
  unfolding pending
  poll zero status w = panic
  poll (suc fuel) status w = pending (work_once w).shared (work_once w).device >>= λ b.
      polled status (poll fuel status) (work_once (record (work_once w) { device = b }))

  -- `free_request`; its pointer is not null.
  abbrev pub finish_request : ℕ → World E → Outcome (Bool × World E)
  finish_request req w = deallocate req w.heap >>= λ h.
      done ((w.shared).bytes (req + status_offset) == 0, record w { heap = h })

  abbrev pub give_up : ℕ → World E → Outcome (Bool × World E)
  give_up req w = deallocate req w.heap >>= λ h. done (false, record w { heap = h })

  -- From the chain on.
  abbrev pub submit :
      ℕ → ℕ → Transfer → World E → Option (ℕ × ℕ × ℕ) × List Bool → Outcome (Bool × World E)
  submit fuel req t w (none, free) =
      give_up req (record w {
        device = record (w.device) { queue = record (w.device.queue) { free = free } };
      })
  submit fuel req t w (some (head, body, stat), free) =
      poll fuel (req + status_offset) (record w {
        device = record (w.device) {
          queue = record (w.device.queue) {
            free = free;
            req_head = set w.device.queue.req_head head req;
          };
        };
        shared = publish t (head, body, stat) w.shared;
        env = hardware.notify w.env;
      })
      >>= finish_request req

  abbrev pub with_request :
      ℕ → ℕ → ℕ → ℕ → Bool → World E → Option ℕ × Heap → Outcome (Bool × World E)
  with_request fuel buffer size offset write w (none, h) = done (false, record w { heap = h })
  with_request fuel buffer size offset write w (some req, h) =
      submit fuel req
        (record {
          header = req;
          buffer = buffer;
          size = size;
          status = req + status_offset;
          write = write;
        })
        (record w { heap = h; shared = write_request req buffer offset write w.shared })
        (alloc_desc_chain w.device.queue.free)

  -- `block_op` on the device in a slot that is in range.
  unfoldable pub request : ℕ → ℕ → ℕ → ℕ → Bool → World E → Outcome (Bool × World E)
  unfolding poll
  request fuel buffer size offset write w =
      if w.device.dev == 0
      then done (false, w)
      else if w.device.read_only && write
      then done (false, w)
      else allocate 1 w.heap >>= with_request fuel buffer size offset write w

  abbrev pub put_back : List BlockDevice → ℕ → Bool × World E → Bool × List BlockDevice × World E
  put_back devices dev (ok, w) = (ok, set devices dev w.device, w)

  -- `block_op`; the world's own device is that of the slot.
  unfoldable pub block_op :
      ℕ
      → ℕ
      → ℕ
      → ℕ
      → ℕ
      → Bool
      → List BlockDevice
      → World E
      → Outcome (Bool × List BlockDevice × World E)
  unfolding request
  block_op fuel dev buffer size offset write devices w =
      if leb max_devices dev
      then done (false, devices, w)
      else map_done (put_back devices dev) (
          request fuel buffer size offset write
            (record w { device = get_or devices dev empty_device }))

  unfoldable pub block_read :
      ℕ → ℕ → ℕ → ℕ → ℕ → List BlockDevice → World E → Outcome (Bool × List BlockDevice × World E)
  unfolding block_op
  block_read fuel dev buffer size offset devices w =
      block_op fuel dev buffer size offset false devices w

  unfoldable pub block_write :
      ℕ → ℕ → ℕ → ℕ → ℕ → List BlockDevice → World E → Outcome (Bool × List BlockDevice × World E)
  unfolding block_op
  block_write fuel dev buffer size offset devices w =
      block_op fuel dev buffer size offset true devices w

-- Byte offsets of a device's registers.
abbrev pub interrupt_status : ℕ
interrupt_status = 0x060

abbrev pub interrupt_ack : ℕ
interrupt_ack = 0x064

module _ {D : Type 0} (regs : Device D) (shared : ℕ → Shared) where
  abbrev pub with_status :
      List BlockDevice → ℕ → BlockDevice → ℕ × D → Outcome (Bool × List BlockDevice × D)
  with_status devices slot b (isr, d) =
      if isr == 0
      then done (false, devices, d)
      else pending (shared slot) b >>= λ b'.
          done (true, set devices slot b', regs.write (b.dev + interrupt_ack) (bit_and isr 3) d)

  abbrev pub pending_in_slot :
      List BlockDevice → ℕ → BlockDevice → D → Outcome (Bool × List BlockDevice × D)
  pending_in_slot devices slot b d =
      if b.dev == 0
      then done (false, devices, d)
      else with_status devices slot b (regs.read (b.dev + interrupt_status) d)

  -- What each slot shares with its device is read as `shared` has it.
  unfoldable pub pending_by_irq : ℕ → List BlockDevice → D → Outcome (Bool × List BlockDevice × D)
  unfolding pending
  pending_by_irq irq devices d =
      if ltb irq irq_base
      then done (false, devices, d)
      else if leb max_devices (irq - irq_base)
      then done (false, devices, d)
      else pending_in_slot devices (irq - irq_base) (get_or devices (irq - irq_base) empty_device) d

-- `first_block_device`, from a slot on.
unfoldable pub first_device : ℕ → List BlockDevice → Option ℕ
first_device idx [] = none
first_device idx (b ∷ bs) =
    let later = first_device (idx + 1) bs in if b.dev == 0 then later else some idx

abbrev pub first_block_device : List BlockDevice → Option ℕ
first_block_device devices = first_device 0 devices

abbrev pub configured_irqs : List BlockDevice → List (Option ℕ)
configured_irqs devices = map irq devices
