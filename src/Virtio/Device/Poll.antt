-- ===== src/Virtio/Device/Poll.antt =====
-- The polling loop of `block_op` in src/drivers/virtio/device.rs.
use vesper.Prelude.{
  ℕ, zero, suc, ◌+◌, ◌-◌, ◌%◌, ◌^◌, ◌<◌, ◌≡◌, refl, sym, ap, ◌∙◌, false, arith, done, ◌==◌, ne→==,
  ◌≢◌, ◌⊎◌, inl, inr,
}
use vesper.Virtio.Device.{
  BlockDevice, Shared, Hardware, World, ring_size, status_pending, complete, acknowledge,
  pending_from, pending, work_once, poll,
}
use vesper.Virtio.{Descriptor}
use vesper.Virtio.Device.Idle.{Answered, Completes, after}

-- Nothing new in the used ring.
pub pending-acked :
    (s : Shared) (b : BlockDevice)
    → b.ack_used_idx ≡ s.used_idx
    → s.used_idx < 2 ^ 16
    → pending s b ≡ done b
unfolding pending pending_from
pending-acked s b acked small =
    let none_left : (s.used_idx + 2 ^ 16 - b.ack_used_idx) % 2 ^ 16 ≡ 0 = omega arith in
    rw none_left

-- One entry.
pending-one :
    (s : Shared) (b b' : BlockDevice) (head : ℕ)
    → b.ack_used_idx < 2 ^ 16
    → s.used_idx ≡ (b.ack_used_idx + 1) % 2 ^ 16
    → s.used_ring (b.ack_used_idx % ring_size) ≡ head
    → complete s.desc head (acknowledge b) ≡ done b'
    → pending s b ≡ done b'
unfolding pending pending_from
pending-one s b b' head small index entry completed =
    let one : (s.used_idx + 2 ^ 16 - b.ack_used_idx) % 2 ^ 16 ≡ 1 = omega arith in
    let differs : (b.ack_used_idx == s.used_idx) ≡ false = ne→== _ _ (omega arith) in
    rw one (rw differs (rw (entry, completed)))

-- One look at the used ring of a device that has written the status.
pending-Answered :
    {used head at : ℕ} {table : ℕ → Descriptor} (s : Shared) (b b' : BlockDevice)
    → b.ack_used_idx ≡ used
    → used < 2 ^ 16
    → complete table head (acknowledge b) ≡ done b'
    → Answered used head at table s
    → (c : BlockDevice) × (pending s b ≡ done c) × ((c ≡ b) ⊎ (c ≡ b'))
pending-Answered {used} {head} s b b' acked small back answered = elim answered.ring [
  | inl before ↦
      (b, pending-acked s b (omega (arith, acked, before)) (omega (arith, before)), inl refl)
  | inr (index, entry) ↦ (
    b',
    pending-one s b b' head (omega (arith, acked)) (omega (arith, index, acked))
        (ap (λ i. s.used_ring (i % ring_size)) acked ∙ entry)
        (ap (λ d. complete d head (acknowledge b)) answered.desc ∙ back),
    inr refl,
  )
]

module _ {E : Type 0} (hardware : Hardware E) (used head at : ℕ) (table : ℕ → Descriptor)
    (b' : BlockDevice) where
  -- The loop ends when the device has written the status, with the chain given back or not yet.
  pub poll-answer :
      (k fuel : ℕ) (w : World E)
      → w.device.ack_used_idx ≡ used
      → used < 2 ^ 16
      → complete table head (acknowledge w.device) ≡ done b'
      → Completes hardware used head at table k w.env w.shared
      → k < fuel
      → (n : ℕ) × (w' : World E) × (poll hardware fuel at w ≡ done w')
        × ((w'.device ≡ w.device) ⊎ (w'.device ≡ b'))
        × ((w'.shared).bytes at ≢ status_pending)
        × (w'.shared ≡ after hardware n w.env w.shared)
        × (w'.heap ≡ w.heap)
  unfolding poll
  poll-answer k zero w acked small back completes lt = absurd (omega arith)
  poll-answer zero (suc fuel) w acked small back (first, second) lt =
      let w₁ = work_once hardware w in
      let (c, seen, which) = pending-Answered w₁.shared w.device b' acked small back first in
      (
        2,
        work_once hardware (record w₁ { device = c }),
        rw seen (rw (ne→== _ _ second.status)),
        which,
        second.status,
        refl,
        refl,
      )
  poll-answer (suc zero) (suc fuel) w acked small back (works, (first, _)) lt =
      let w₁ = work_once hardware w in
      let seen : pending w₁.shared w.device ≡ done w.device =
        pending-acked w₁.shared w.device (acked ∙ sym works.index) (omega (arith, works.index)) in
      (
        2,
        work_once hardware w₁,
        rw seen (rw (ne→== _ _ first.status)),
        inl refl,
        first.status,
        refl,
        refl,
      )
  poll-answer (suc (suc k)) (suc fuel) w acked small back (works, (more, completes)) lt =
      let w₁ = work_once hardware w in
      let w₂ = work_once hardware w₁ in
      let seen : pending w₁.shared w.device ≡ done w.device =
        pending-acked w₁.shared w.device (acked ∙ sym works.index) (omega (arith, works.index)) in
      let (n, w', ends, device, status, shared, heap) =
        poll-answer k fuel w₂ acked small back completes (omega arith) in
      (suc (suc n), w', rw seen (rw more.status ends), device, status, shared, heap)
