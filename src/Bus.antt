-- ===== src/Bus.antt =====
-- src/drivers/virtio/bus.rs, the set-up in device.rs, and spec.rs: finding the virtio devices behind reads and
-- writes that may fault. The lines that are printed are left out.
pub mod Guard
mod Setup
mod Absent
mod Refused
mod Tests
use vesper.Prelude.{
  ℕ, zero, suc, ◌+◌, ◌-◌, ◌*◌, ◌/◌, ◌%◌, ◌^◌, Bool, true, false, not, Option, none, some, List, [],
  ◌∷◌, Outcome, done, panic, ◌>>=◌, bit_and, bit_or, ltb, leb, ◌==◌, if◌then◌else◌, set,
}
use vesper.Mmio.{Device}
use vesper.PageFrame.{Heap, Memory, page_size, zallocate}
use vesper.Minix.{Driver}
use vesper.Syscall.{Next, resume}
use vesper.Virtio.Device.{
  BlockDevice, DeviceType, block, entropy, unknown, Shared, empty_queue, mmio_start, max_devices,
  ring_size,
}
use vesper.Trap.{Machine, clear_access_fault, take_access_fault, m_trap}

abbrev pub mmio_end : ℕ
mmio_end = 0x1000_8000

abbrev pub mmio_stride : ℕ
mmio_stride = 0x1000

abbrev pub mmio_magic : ℕ
mmio_magic = 0x7472_6976

abbrev pub blk_f_ro : ℕ
blk_f_ro = 5

abbrev pub acknowledge_bit : ℕ
acknowledge_bit = 1

abbrev pub driver_bit : ℕ
driver_bit = 2

abbrev pub driver_ok : ℕ
driver_ok = 4

abbrev pub features_ok : ℕ
features_ok = 8

abbrev pub failed : ℕ
failed = 128

abbrev pub device_block : ℕ
device_block = 2

abbrev pub device_entropy : ℕ
device_entropy = 4

-- The registers that are used, of `MmioOffsets`.
pub data MmioOffset : Type 0 where
  magic_value device_id host_features guest_features guest_page_size queue_sel queue_num_max :
      MmioOffset
  queue_num queue_align queue_pfn status : MmioOffset

-- `val`, and 4 times `scale32`.
abbrev pub val : MmioOffset → ℕ
val magic_value = 0x000
val device_id = 0x008
val host_features = 0x010
val guest_features = 0x020
val guest_page_size = 0x028
val queue_sel = 0x030
val queue_num_max = 0x034
val queue_num = 0x038
val queue_align = 0x03c
val queue_pfn = 0x040
val status = 0x070

-- `(value + align - 1) & !(align - 1)`, for an `align` that is not 0.
abbrev pub align_up : ℕ → ℕ → ℕ
align_up value align = bit_and (value + align - 1) (2 ^ 64 - align)

-- `size_of` of a descriptor, and of the two rings with eight entries.
abbrev pub virtqueue_desc_bytes : ℕ
virtqueue_desc_bytes = 16 * ring_size

abbrev pub virtqueue_avail_bytes : ℕ
virtqueue_avail_bytes = 2 + 2 + 2 * ring_size + 2

-- The last field is padded to four bytes.
abbrev pub virtqueue_used_bytes : ℕ
virtqueue_used_bytes = 2 + 2 + 8 * ring_size + 4

abbrev pub used_offset : ℕ
used_offset = align_up (virtqueue_desc_bytes + virtqueue_avail_bytes) page_size

abbrev pub queue_pages : ℕ
queue_pages = align_up (used_offset + virtqueue_used_bytes) page_size / page_size

-- The slot of an address; the subtraction wraps for one in front of the bus.
abbrev pub dev_slot_from_ptr : ℕ → ℕ
dev_slot_from_ptr ptr = (ptr + 2 ^ 64 - mmio_start) % 2 ^ 64 / 2 ^ 12

-- A device with its queue at `page`.
abbrev pub set_up : ℕ → ℕ → ℕ → BlockDevice
set_up ptr page host = record {
  dev = ptr;
  queue = record empty_queue {
    desc = page;
    avail = page + virtqueue_desc_bytes;
    used = page + used_offset;
  };
  ack_used_idx = 0;
  read_only = not (bit_and host (2 ^ blk_f_ro) == 0);
}

-- Which accesses of a device fault.
pub record Bus (D : Type 0) : Type 0 where
  pub device : Device D
  pub faults : ℕ → D → Bool

-- A step of the set-up: a result, or the set-up gives up.
abbrev pub Step : Type 0 → Type 0 → Type 0
Step D A = Machine D → Outcome (Option A × Machine D)

abbrev pub and_then :
    {D A B : Type 0} → (A → Step D B) → Option A × Machine D → Outcome (Option B × Machine D)
and_then f (none, m) = done (none, m)
and_then f (some a, m) = f a m

infixr 5 ◌>>?◌
abbrev pub ◌>>?◌ : {D A B : Type 0} → Step D A → (A → Step D B) → Step D B
(s >>? f) m = s m >>= and_then f

-- An access that faults takes the trap, and goes on behind its instruction, at `epc`. A trap that returns to
-- any other place is not modelled, and is a panic.
abbrev pub skipped : {D : Type 0} → ℕ → Next × Machine D → Outcome (Machine D)
skipped epc (resume pc, m) = if pc == (epc + 4) % 2 ^ 64 then done m else panic
skipped epc (_, m) = panic

module _ {D : Type 0} (bus : Bus D) (shared : ℕ → Shared) (driver : Driver) (memory : ℕ → ℕ)
    (fuel epc : ℕ) where
  abbrev pub trapped : ℕ → ℕ → Machine D → Outcome (Machine D)
  trapped cause at m = m_trap bus.device shared driver memory fuel epc at cause 0 m >>= skipped epc

  abbrev pub read_in : ℕ × D → Machine D → ℕ × Machine D
  read_in (v, d) m = (v, record m { io = d })

  -- What a load that is skipped leaves in its register does not matter.
  abbrev pub load : ℕ → Machine D → Outcome (ℕ × Machine D)
  load at m =
      if bus.faults at m.io
      then (trapped 5 at m >>= λ m'. done (0, m'))
      else done (read_in ((bus.device).read at m.io) m)

  abbrev pub store : ℕ → ℕ → Machine D → Outcome (Machine D)
  store at v m =
      if bus.faults at m.io
      then trapped 7 at m
      else done (record m { io = (bus.device).write at v m.io })

  abbrev pub unless_faulted : {A : Type 0} → A → Bool × Machine D → Option A × Machine D
  unless_faulted a (faulted, m) = (if faulted then none else some a, m)

  unfoldable pub mmio_read32 : ℕ → MmioOffset → Step D ℕ
  mmio_read32 ptr off m = load (ptr + val off) (clear_access_fault m) >>= λ r.
      done (unless_faulted r.0 (take_access_fault r.1))

  unfoldable pub mmio_write32 : ℕ → MmioOffset → ℕ → Step D Unit
  mmio_write32 ptr off v m = store (ptr + val off) v (clear_access_fault m) >>= λ m'.
      done (unless_faulted tt (take_access_fault m'))

  -- `let _ = mmio_write32(ptr, Status, FAILED)`
  abbrev pub set_failed : {A : Type 0} → ℕ → Step D A
  set_failed ptr m = mmio_write32 ptr status failed m >>= λ r. done (none, r.1)

  -- Up to the features.
  unfoldable pub negotiate : ℕ → Step D ℕ
  unfolding mmio_read32 mmio_write32
  negotiate ptr = mmio_write32 ptr status 0 >>? λ _.
      mmio_write32 ptr status acknowledge_bit >>? λ _.
      mmio_write32 ptr status (bit_or acknowledge_bit driver_bit) >>? λ _.
      mmio_read32 ptr host_features >>? λ host.
      mmio_write32 ptr guest_features (bit_and host (2 ^ 32 - 1 - 2 ^ blk_f_ro)) >>? λ _.
      mmio_write32 ptr status (bit_or (bit_or acknowledge_bit driver_bit) features_ok) >>? λ _.
      mmio_read32 ptr status >>? λ status_ok.
      if bit_and status_ok features_ok == 0 then set_failed ptr else λ m. done (some host, m)

  -- The size of the queue.
  unfoldable pub size_queue : ℕ → Step D Unit
  unfolding mmio_read32 mmio_write32
  size_queue ptr = mmio_write32 ptr queue_sel 0 >>? λ _. mmio_read32 ptr queue_num_max >>? λ qnmax.
      if ltb qnmax ring_size
      then set_failed ptr
      else (mmio_write32 ptr queue_num ring_size >>? λ _.
          mmio_write32 ptr queue_align page_size >>? λ _.
          mmio_write32 ptr guest_page_size page_size)

  -- The pages of the queue; the pointer is cut to 32 bits.
  abbrev pub with_pages : ℕ → Machine D → Option ℕ × Memory × Heap → Outcome (Option ℕ × Machine D)
  with_pages ptr m (none, mem, h) = set_failed ptr (record m { mem = mem; heap = h })
  with_pages ptr m (some page, mem, h) =
      (mmio_write32 ptr queue_pfn (page % 2 ^ 32 / page_size) >>? λ _. λ m. done (some page, m))
        (record m { mem = mem; heap = h })

  unfoldable pub alloc_queue : ℕ → Step D ℕ
  unfolding mmio_write32
  alloc_queue ptr m = zallocate queue_pages m.mem m.heap >>= with_pages ptr m

  -- `BLOCK_DEVICES[slot] = ..` and `VIRTIO_DEVICES[slot] = ..`; an index out of range panics.
  unfoldable pub register : ℕ → BlockDevice → Step D Unit
  register slot b m =
      if leb max_devices slot
      then panic
      else done (
        some tt,
        record m {
          block_devices = set m.block_devices slot b;
          virtio_devices = set m.virtio_devices slot (some block);
        },
      )

  -- `some` for true.
  unfoldable pub setup_block_device : ℕ → Step D Unit
  unfolding negotiate size_queue alloc_queue register mmio_write32
  setup_block_device ptr = negotiate ptr >>? λ host. size_queue ptr >>? λ _.
      alloc_queue ptr >>? λ page. register (dev_slot_from_ptr ptr) (set_up ptr page host) >>? λ _.
      mmio_write32 ptr status
        (bit_or (bit_or (bit_or acknowledge_bit driver_bit) features_ok) driver_ok)

  -- `register_entropy_device` and `register_unknown_device`
  unfoldable pub register_device : DeviceType → ℕ → Machine D → Outcome (Machine D)
  register_device kind ptr m =
      if leb max_devices (dev_slot_from_ptr ptr)
      then panic
      else done
          (record m { virtio_devices = set m.virtio_devices (dev_slot_from_ptr ptr) (some kind) })

  abbrev pub enroll : ℕ → ℕ → Machine D → Outcome (Machine D)
  enroll ptr id m =
      if id == device_block
      then (setup_block_device ptr m >>= λ r. done r.1)
      else if id == device_entropy
      then register_device entropy ptr m
      else register_device unknown ptr m

  abbrev pub with_id : ℕ → Option ℕ × Machine D → Outcome (Machine D)
  with_id ptr (none, m) = done m
  with_id ptr (some id, m) = if id == 0 then done m else enroll ptr id m

  abbrev pub with_magic : ℕ → Option ℕ × Machine D → Outcome (Machine D)
  with_magic ptr (none, m) = done m
  with_magic ptr (some magic, m) =
      if magic == mmio_magic then (mmio_read32 ptr device_id m >>= with_id ptr) else done m

  unfoldable pub probe_at : ℕ → Machine D → Outcome (Machine D)
  unfolding setup_block_device register_device mmio_read32
  probe_at ptr m = mmio_read32 ptr magic_value m >>= with_magic ptr

  -- `(START..=END).step_by(STRIDE)`, with `n` addresses to go.
  unfoldable pub probe_from : ℕ → ℕ → Machine D → Outcome (Machine D)
  unfolding probe_at
  probe_from zero ptr m = done m
  probe_from (suc n) ptr m = probe_at ptr m >>= probe_from n (ptr + mmio_stride)

  unfoldable pub probe : Machine D → Outcome (Machine D)
  unfolding probe_from
  probe m = probe_from ((mmio_end - mmio_start) / mmio_stride + 1) mmio_start m
