-- ===== src/Virtio/Device/Idle.antt =====
-- A queue of src/drivers/virtio/device.rs between two requests, and what the driver relies on of a device.
use vesper.Prelude.{ℕ, zero, suc, ◌+◌, ◌%◌, ◌^◌, ◌<◌, ◌≡◌, ◌≢◌, true, replicate, ◌⊎◌}
use vesper.Virtio.Device.{BlockDevice, Shared, Hardware, ring_size, status_pending}
use vesper.Virtio.{Descriptor}

-- All descriptors are free, no request is outstanding, and every entry of the used ring was seen.
pub record IsIdle (b : BlockDevice) (s : Shared) : Type 0 where
  pub free : b.queue.free ≡ replicate ring_size true
  pub heads : b.queue.req_head ≡ replicate ring_size 0
  pub acked : b.ack_used_idx ≡ s.used_idx
  pub small : s.used_idx < 2 ^ 16

-- The device still works on the request: it left the index of the used ring, the descriptors and the status
-- alone.
pub record Working (used at : ℕ) (table : ℕ → Descriptor) (s : Shared) : Type 0 where
  pub index : s.used_idx ≡ used
  pub desc : s.desc ≡ table
  pub status : s.bytes at ≡ status_pending

-- The device has written the status, and either not yet the used ring, or its chain's head stands there and the
-- index went up by one.
pub record Answered (used head at : ℕ) (table : ℕ → Descriptor) (s : Shared) : Type 0 where
  pub desc : s.desc ≡ table
  pub status : s.bytes at ≢ status_pending
  pub ring :
      (s.used_idx ≡ used)
      ⊎ ((s.used_idx ≡ (used + 1) % 2 ^ 16) × (s.used_ring (used % ring_size) ≡ head))

module _ {E : Type 0} (hardware : Hardware E) where
  -- The device works for `k` steps, then it writes the status, not behind the used ring's index, and does
  -- not take it back with the step behind that.
  abbrev pub Completes : ℕ → ℕ → ℕ → (ℕ → Descriptor) → ℕ → E → Shared → Type 0
  Completes used head at table zero e s =
      Answered used head at table (hardware.work e s).1
      × Answered used head at table (hardware.work (hardware.work e s).0 (hardware.work e s).1).1
  Completes used head at table (suc k) e s =
      Working used at table (hardware.work e s).1
      × Completes used head at table k (hardware.work e s).0 (hardware.work e s).1

  -- What is shared after `n` steps of the device.
  abbrev pub after : ℕ → E → Shared → Shared
  after zero e s = s
  after (suc n) e s = after n (hardware.work e s).0 (hardware.work e s).1
