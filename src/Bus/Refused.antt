-- ===== src/Bus/Refused.antt =====
-- `setup_block_device` of src/drivers/virtio/device.rs on a device that does not agree to the features.
use vesper.Prelude.{
  ℕ, ◌+◌, ◌-◌, ◌^◌, ◌≡◌, ◌∙◌, refl, true, false, none, some, [], ◌∷◌, done, bit_and, ◌==◌,
}
use vesper.Minix.{Driver}
use vesper.Virtio.Device.{Shared}
use vesper.Trap.{Machine}
use vesper.Bus.{
  Bus, MmioOffset, val, mmio_read32, mmio_write32, status, host_features, guest_features, negotiate,
  setup_block_device, blk_f_ro,
}
use vesper.Bus.Guard.{mmio_read32-mmio_write32}
use vesper.Bus.Setup.{writes, reads, replay}

-- No access of the device at `ptr` faults. It offers the features `host`, and takes FEATURES_OK back, which is the
-- bit 8 of the status.
pub record Refuses {D : Type 0} (bus : Bus D) (ptr host : ℕ) : Type 0 where
  pub reached : (off : MmioOffset) (d : D) → bus.faults (ptr + val off) d ≡ false
  pub offered : (d : D) → ((bus.device).read (ptr + 0x10) d).0 ≡ host
  pub refused :
      (d : D)
      → (bit_and (((bus.device).read (ptr + 0x70) ((bus.device).write (ptr + 0x70) 11 d)).0) 8 == 0)
        ≡ true

module _ {D : Type 0} (bus : Bus D) (shared : ℕ → Shared) (driver : Driver) (memory : ℕ → ℕ)
    (fuel epc ptr host : ℕ) (refuses : Refuses bus ptr host) where
  write-reached :
      (off : MmioOffset) (v : ℕ) (m : Machine D)
      → mmio_write32 bus shared driver memory fuel epc ptr off v m
        ≡ done (
          some tt,
          record m { access_fault_seen = false; io = (bus.device).write (ptr + val off) v m.io },
        )
  write-reached off v m =
      let (_, is_written, _, _) =
        mmio_read32-mmio_write32 bus shared driver memory fuel epc ptr off v m in
      is_written ∙ rw (refuses.reached off m.io) refl

  read-reached :
      (off : MmioOffset) (m : Machine D)
      → mmio_read32 bus shared driver memory fuel epc ptr off m
        ≡ done (
          some ((bus.device).read (ptr + val off) m.io).0,
          record m { access_fault_seen = false; io = ((bus.device).read (ptr + val off) m.io).1 },
        )
  read-reached off m =
      let (is_read, _, _, _) =
        mmio_read32-mmio_write32 bus shared driver memory fuel epc ptr off 0 m in
      is_read ∙ rw (refuses.reached off m.io) refl

  -- On a device that takes FEATURES_OK back the set-up gives up: behind the negotiation FAILED is written to the
  -- device, no page is taken, and neither table of devices changes.
  pub setup_block_device-refused :
      (m : Machine D)
      → setup_block_device bus shared driver memory fuel epc ptr m
        ≡ done (
          none,
          record m {
            access_fault_seen = false;
            io =
                replay bus.device ptr
                  (writes 0x70 0
                    ∷ writes 0x70 1
                    ∷ writes 0x70 3
                    ∷ reads 0x10
                    ∷ writes 0x20 (bit_and host (2 ^ 32 - 1 - 2 ^ 5))
                    ∷ writes 0x70 11
                    ∷ reads 0x70
                    ∷ writes 0x70 128
                    ∷ [])
                  m.io;
          },
        )
  unfolding setup_block_device negotiate
  setup_block_device-refused m =
      let at : D → Machine D = λ d. record m { access_fault_seen = false; io = d } in
      let d₁ = (bus.device).write (ptr + 0x70) 0 m.io in
      let d₂ = (bus.device).write (ptr + 0x70) 1 d₁ in
      let d₃ = (bus.device).write (ptr + 0x70) 3 d₂ in
      let d₄ = ((bus.device).read (ptr + 0x10) d₃).1 in
      let features = bit_and host (2 ^ 32 - 1 - 2 ^ blk_f_ro) in
      let d₅ = (bus.device).write (ptr + 0x20) features d₄ in
      let d₆ = (bus.device).write (ptr + 0x70) 11 d₅ in
      let d₇ = ((bus.device).read (ptr + 0x70) d₆).1 in
      rw (write-reached status 0 m) (
        rw (write-reached status 1 (at d₁)) (
          rw (write-reached status 3 (at d₂)) (
            rw (read-reached host_features (at d₃), refuses.offered d₃)
              (rw (write-reached guest_features features (at d₄)) (
                rw (write-reached status 11 (at d₅)) (
                  rw (read-reached status (at d₆))
                    (rw (refuses.refused d₅) (rw (write-reached status 128 (at d₇)) refl))))))))
