-- ===== src/Bus/Absent.antt =====
-- `probe` of src/drivers/virtio/bus.rs on a bus without virtio devices.
use vesper.Prelude.{
  ℕ, zero, suc, ◌+◌, ◌*◌, ◌<◌, ◌≡◌, ◌⊎◌, inl, inr, refl, sym, ap, ◌∙◌, true, false, done, arith,
  ◌==◌, Bool-cases,
}
use mathlib.Core.Path.{subst}
use vesper.Minix.{Driver}
use vesper.Virtio.Device.{Shared, max_devices, mmio_start}
use vesper.Trap.{Machine}
use vesper.Bus.{Bus, val, magic_value, mmio_stride, mmio_magic, probe_at, probe_from, probe}
use vesper.Bus.Guard.{mmio_read32-mmio_write32}

module _ {D : Type 0} (bus : Bus D) (shared : ℕ → Shared) (driver : Driver) (memory : ℕ → ℕ)
    (fuel epc : ℕ) where
  -- At an address a read faults, or what it gives is not the magic number.
  unfoldable pub Absent : ℕ → Type 0
  Absent at =
      (d : D) → (bus.faults at d ≡ true) ⊎ ((((bus.device).read at d).0 == mmio_magic) ≡ false)

  probe_at-Absent :
      (ptr : ℕ) (m : Machine D)
      → Absent (ptr + val magic_value)
      → (d : D) × (probe_at bus shared driver memory fuel epc ptr m
          ≡ done (record m { access_fault_seen = false; io = d }))
  unfolding probe_at Absent
  probe_at-Absent ptr m absent =
      let at = ptr + val magic_value in
      let (is_read, _, _, _) =
        mmio_read32-mmio_write32 bus shared driver memory fuel epc ptr magic_value 0 m in
      elim (Bool-cases (bus.faults at m.io)) [
        | inl faulted ↦ (m.io, rw is_read (rw faulted refl))
        | inr reached ↦ elim (absent m.io) [
          | inl faulted ↦ absurd (cc)
          | inr other ↦ (((bus.device).read at m.io).1, rw is_read (rw (reached, other) refl))
        ]
      ]

  probe_from-Absent :
      (n k : ℕ) (m : Machine D)
      → ((slot : ℕ) → slot < k + n → Absent (mmio_start + slot * mmio_stride + val magic_value))
      → (d : D) × (probe_from bus shared driver memory fuel epc n
            (mmio_start + k * mmio_stride)
            (record m { access_fault_seen = false })
          ≡ done (record m { access_fault_seen = false; io = d }))
  unfolding probe_from
  probe_from-Absent zero k m absent = (m.io, refl)
  probe_from-Absent (suc n) k m absent =
      let ptr = mmio_start + k * mmio_stride in
      let (d₁, one) =
        probe_at-Absent ptr (record m { access_fault_seen = false }) (absent k (omega arith)) in
      let (d₂, more) =
        probe_from-Absent n (k + 1) (record m { io = d₁ }) (λ slot lt. absent slot (omega arith)) in
      let along : mmio_start + (k + 1) * mmio_stride ≡ ptr + mmio_stride = omega arith in
      (
        d₂,
        rw one (
            ap
              (λ p.
                probe_from bus shared driver memory fuel epc n p
                  (record m { access_fault_seen = false; io = d₁ }))
              (sym along)
            ∙ more),
      )

  -- If at each of the eight addresses a read faults or does not give the magic number, probing returns
  -- and registers nothing: no fault stays noted, and of the machine nothing else changes but the
  -- devices that were read.
  pub probe-Absent :
      (m : Machine D)
      → m.access_fault_seen ≡ false
      → ((slot : ℕ)
          → slot < max_devices
          → Absent (mmio_start + slot * mmio_stride + val magic_value))
      → (d : D) × (probe bus shared driver memory fuel epc m ≡ done (record m { io = d }))
  unfolding probe
  probe-Absent m clear absent =
      let (d, ends) = probe_from-Absent 8 0 m absent in
      (
        d,
        subst
            (λ seen.
              probe_from bus shared driver memory fuel epc 8 mmio_start
                (record m { access_fault_seen = seen })
              ≡ done (record m { access_fault_seen = seen; io = d }))
            (sym clear) ends,
      )
