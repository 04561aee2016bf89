-- ===== src/Bus/Setup.antt =====
-- `setup_block_device` of src/drivers/virtio/device.rs on a device that accepts it.
use vesper.Prelude.{
  ℕ, List, [], ◌∷◌, ◌+◌, ◌-◌, ◌*◌, ◌/◌, ◌%◌, ◌^◌, ◌<◌, ◌≤◌, ◌≡◌, refl, ap, false, not, some, done,
  arith, set, bit_and, ltb, leb, ◌==◌, ne→==,
}
use vesper.Mmio.{Device}
use vesper.PageFrame.{Heap, Memory, page_size, zallocate}
use vesper.Minix.{Driver}
use vesper.Virtio.Device.{empty_queue, block, Shared, max_devices, mmio_start, ring_size, irq}
use vesper.Trap.{Machine}
use vesper.Bus.{
  Bus, MmioOffset, val, mmio_read32, mmio_write32, status, host_features, guest_features, queue_sel,
  queue_num_max, queue_num, queue_align, guest_page_size, queue_pfn, features_ok, negotiate,
  size_queue, alloc_queue, register, set_up, setup_block_device, queue_pages, dev_slot_from_ptr,
  blk_f_ro,
}

-- An access of the device's registers, by the offset from its address.
pub data Access : Type 0 where
  writes : ℕ → ℕ → Access
  reads : ℕ → Access

-- What a sequence of accesses leaves of the device at `ptr`.
abbrev pub replay : {D : Type 0} → Device D → ℕ → List Access → D → D
replay device ptr [] d = d
replay device ptr (writes off v ∷ rest) d = replay device ptr rest (device.write (ptr + off) v d)
replay device ptr (reads off ∷ rest) d = replay device ptr rest (device.read (ptr + off) d).1

-- No access of the device at `ptr` faults. It offers the features `host`, keeps FEATURES_OK once it is written
-- behind ACKNOWLEDGE and DRIVER, and its queue has room for eight entries.
pub record Accepts {D : Type 0} (bus : Bus D) (ptr host : ℕ) : Type 0 where
  pub reached : (off : MmioOffset) (d : D) → bus.faults (ptr + val off) d ≡ false
  pub offered : (d : D) → ((bus.device).read (ptr + val host_features) d).0 ≡ host
  pub agreed :
      (d : D)
      → (bit_and
            (((bus.device).read (ptr + val status) ((bus.device).write (ptr + val status) 11 d)).0)
            features_ok
          == 0)
        ≡ false
  pub roomy : (d : D) → ltb (((bus.device).read (ptr + val queue_num_max) d).0) ring_size ≡ false

module _ {D : Type 0} (bus : Bus D) (shared : ℕ → Shared) (driver : Driver) (memory : ℕ → ℕ)
    (fuel epc ptr host : ℕ) (accepts : Accepts bus ptr host) where
  -- A register is written, or read.
  to : MmioOffset → ℕ → D → D
  to off v d = (bus.device).write (ptr + val off) v d

  from : MmioOffset → D → D
  from off d = ((bus.device).read (ptr + val off) d).1

  write-done :
      (off : MmioOffset) (v : ℕ) (m : Machine D)
      → mmio_write32 bus shared driver memory fuel epc ptr off v m
        ≡ done (some tt, record m { access_fault_seen = false; io = to off v m.io })
  unfolding mmio_write32 to
  write-done off v m = rw (accepts.reached off m.io) refl

  read-done :
      (off : MmioOffset) (m : Machine D)
      → mmio_read32 bus shared driver memory fuel epc ptr off m
        ≡ done (
          some ((bus.device).read (ptr + val off) m.io).0,
          record m { access_fault_seen = false; io = from off m.io },
        )
  unfolding mmio_read32 from
  read-done off m = rw (accepts.reached off m.io) refl

  agreed-to :
      (d : D)
      → (bit_and (((bus.device).read (ptr + val status) (to status 11 d)).0) features_ok == 0)
        ≡ false
  unfolding to
  agreed-to d = accepts.agreed d

  agreement : D → D
  agreement d = from status (
      to status 11 (
        to guest_features (bit_and host (2 ^ 32 - 1 - 2 ^ blk_f_ro))
          (from host_features (to status 3 (to status 1 (to status 0 d))))))

  negotiate-done :
      (m : Machine D)
      → negotiate bus shared driver memory fuel epc ptr m
        ≡ done (some host, record m { access_fault_seen = false; io = agreement m.io })
  unfolding negotiate agreement
  negotiate-done m =
      let at : D → Machine D = λ d. record m { access_fault_seen = false; io = d } in
      let d₁ = to status 0 m.io in
      let d₂ = to status 1 d₁ in
      let d₃ = to status 3 d₂ in
      let d₄ = from host_features d₃ in
      let d₅ = to guest_features (bit_and host (2 ^ 32 - 1 - 2 ^ blk_f_ro)) d₄ in
      let d₆ = to status 11 d₅ in
      rw (write-done status 0 m) (
        rw (write-done status 1 (at d₁)) (
          rw (write-done status 3 (at d₂)) (
            rw (read-done host_features (at d₃), accepts.offered d₃)
              (rw (write-done guest_features (bit_and host (2 ^ 32 - 1 - 2 ^ blk_f_ro)) (at d₄)) (
                rw (write-done status 11 (at d₅))
                  (rw (read-done status (at d₆)) (rw (agreed-to d₅) refl)))))))

  sizing : D → D
  sizing d =
      to guest_page_size page_size
        (to queue_align page_size (to queue_num ring_size (from queue_num_max (to queue_sel 0 d))))

  size_queue-done :
      (m : Machine D)
      → size_queue bus shared driver memory fuel epc ptr m
        ≡ done (some tt, record m { access_fault_seen = false; io = sizing m.io })
  unfolding size_queue sizing
  size_queue-done m =
      let at : D → Machine D = λ d. record m { access_fault_seen = false; io = d } in
      let d₁ = to queue_sel 0 m.io in
      let d₂ = from queue_num_max d₁ in
      let d₃ = to queue_num ring_size d₂ in
      let d₄ = to queue_align page_size d₃ in
      rw (write-done queue_sel 0 m) (
        rw (read-done queue_num_max (at d₁), accepts.roomy d₁)
          (rw (write-done queue_num ring_size (at d₂)) (
            rw (write-done queue_align page_size (at d₃))
              (write-done guest_page_size page_size (at d₄)))))

  -- On a device that accepts it, at an address of the bus, where the allocator grants two zeroed pages: the
  -- set-up succeeds. The device was accessed as for a legacy virtio device: reset, ACKNOWLEDGE, DRIVER,
  -- the features without that of a read-only disk, FEATURES_OK and its check, the queue 0 of eight
  -- entries with the alignment and the page size, the number of its first page, whose address is cut
  -- to 32 bits, and DRIVER_OK last. The device stands in its slot with an empty queue in these pages,
  -- the available ring 128 bytes in and the used ring 4096, and is read-only just if it offers that
  -- feature; the memory and the heap are as the allocator left them, and its interrupt is that of
  -- its slot.
  pub setup_block_device-done :
      (m : Machine D) (page : ℕ) (mem : Memory) (h : Heap)
      → mmio_start ≤ ptr
      → ptr < mmio_start + 2 ^ 12 * max_devices
      → zallocate 2 m.mem m.heap ≡ done (some page, mem, h)
      → (setup_block_device bus shared driver memory fuel epc ptr m
          ≡ done (
            some tt,
            record m {
              access_fault_seen = false;
              io =
                  replay bus.device ptr
                    (writes 0x70 0
                      ∷ writes 0x70 1
                      ∷ writes 0x70 3
                      ∷ reads 0x10
                      ∷ writes 0x20 (bit_and host (2 ^ 32 - 1 - 2 ^ 5))
                      ∷ writes 0x70 11
                      ∷ reads 0x70
                      ∷ writes 0x30 0
                      ∷ reads 0x34
                      ∷ writes 0x38 8
                      ∷ writes 0x3c 4096
                      ∷ writes 0x28 4096
                      ∷ writes 0x40 (page % 2 ^ 32 / 4096)
                      ∷ writes 0x70 15
                      ∷ [])
                    m.io;
              mem = mem;
              heap = h;
              block_devices = set m.block_devices (dev_slot_from_ptr ptr) (record {
                dev = ptr;
                queue = record empty_queue { desc = page; avail = page + 128; used = page + 4096 };
                ack_used_idx = 0;
                read_only = not (bit_and host (2 ^ 5) == 0);
              });
              virtio_devices = set m.virtio_devices (dev_slot_from_ptr ptr) (some block);
            },
          ))
        × (irq (set_up ptr page host) ≡ some (1 + dev_slot_from_ptr ptr))
  unfolding setup_block_device alloc_queue register irq agreement sizing to from
  setup_block_device-done m page mem h low high granted =
      let two_pages : zallocate queue_pages m.mem m.heap ≡ done (some page, mem, h) = granted in
      let d₁ = agreement m.io in
      let d₂ = sizing d₁ in
      let d₃ = to queue_pfn (page % 2 ^ 32 / page_size) d₂ in
      let small : dev_slot_from_ptr ptr < max_devices = omega arith in
      let inside : leb max_devices (dev_slot_from_ptr ptr) ≡ false = ground arith in
      let line : (1 + dev_slot_from_ptr ptr % 2 ^ 32) % 2 ^ 32 ≡ 1 + dev_slot_from_ptr ptr =
        omega (arith, small) in
      let at : D → Machine D =
        λ d. record m { access_fault_seen = false; io = d; mem = mem; heap = h } in
      let registered : Machine D = record (at d₃) {
        block_devices = set m.block_devices (dev_slot_from_ptr ptr) (set_up ptr page host);
        virtio_devices = set m.virtio_devices (dev_slot_from_ptr ptr) (some block);
      } in
      (
        rw (negotiate-done m) (
            rw (size_queue-done (record m { access_fault_seen = false; io = d₁ })) (
              rw two_pages (
                rw (write-done queue_pfn (page % 2 ^ 32 / page_size) (at d₂))
                  (rw inside (write-done status 15 registered))))),
        rw (ne→== ptr 0 (omega arith)) (ap some line),
      )
