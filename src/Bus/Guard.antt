-- ===== src/Bus/Guard.antt =====
-- A guarded access of src/drivers/virtio/device.rs and bus.rs, with the trap that it may take.
use vesper.Prelude.{
  ℕ, ◌+◌, ◌%◌, ◌^◌, ◌≡◌, ==_iff, refl, true, false, none, some, done, Bool-cases, inl, inr,
  if◌then◌else◌,
}
use vesper.Minix.{Driver}
use vesper.Syscall.{resume}
use vesper.Virtio.Device.{Shared}
use vesper.Trap.{Machine, m_trap}
use vesper.Bus.{Bus, MmioOffset, val, mmio_read32, mmio_write32}

module _ {D : Type 0} (bus : Bus D) (shared : ℕ → Shared) (driver : Driver) (memory : ℕ → ℕ)
    (fuel epc ptr : ℕ) (off : MmioOffset) where
  pub mmio_read32-mmio_write32 :
      (v : ℕ) (m : Machine D)
      → (mmio_read32 bus shared driver memory fuel epc ptr off m ≡ (
          if bus.faults (ptr + val off) m.io
          then done (none, record m { access_fault_seen = false })
          else done (
            some ((bus.device).read (ptr + val off) m.io).0,
            record m { access_fault_seen = false; io = ((bus.device).read (ptr + val off) m.io).1 },
          )))
        × (mmio_write32 bus shared driver memory fuel epc ptr off v m ≡ (
            if bus.faults (ptr + val off) m.io
            then done (none, record m { access_fault_seen = false })
            else done (
              some tt,
              record m {
                access_fault_seen = false;
                io = (bus.device).write (ptr + val off) v m.io;
              },
            )))
        × (m_trap bus.device shared driver memory fuel epc (ptr + val off) 5 0 m
            ≡ done (resume ((epc + 4) % 2 ^ 64), record m { access_fault_seen = true }))
        × (m_trap bus.device shared driver memory fuel epc (ptr + val off) 7 0 m
            ≡ done (resume ((epc + 4) % 2 ^ 64), record m { access_fault_seen = true }))
  unfolding mmio_read32 mmio_write32 m_trap
  mmio_read32-mmio_write32 v m =
      let back = (epc + 4) % 2 ^ 64 in
      let same = (==_iff back back).1 refl in
      elim (Bool-cases (bus.faults (ptr + val off) m.io)) [
        | inl faulted ↦ (rw (faulted, same) refl, rw (faulted, same) refl, refl, refl)
        | inr reached ↦ (rw reached refl, rw reached refl, refl, refl)
      ]
