-- ===== src/Virtio/Device/Refuse.antt =====
-- The error paths of `block_op` in src/drivers/virtio/device.rs.
use vesper.Prelude.{
  ℕ, zero, suc, ◌≤◌, ◌≡◌, ◌≢◌, ◌⊎◌, inl, inr, refl, ap, Bool, true, false, ◌&&◌, List, [], ◌∷◌,
  arith, done, ne→==, set, get_or, none, leb, Bool-cases,
}
use vesper.PageFrame.Ready.{IsReady, allocate-IsReady}
use vesper.Virtio.{alloc_desc_chain}
use vesper.Virtio.Chain.{alloc_desc_chain-none}
use vesper.Virtio.Device.{
  BlockDevice, Hardware, World, max_devices, empty_device, write_request, request, block_op,
}

pub set-get_or : (bs : List BlockDevice) (i : ℕ) → set bs i (get_or bs i empty_device) ≡ bs
set-get_or [] i = refl
set-get_or (b ∷ bs) zero = refl
set-get_or (b ∷ bs) (suc i) = ap (λ r. b ∷ r) (set-get_or bs i)

module _ {E : Type 0} (hardware : Hardware E) where
  -- On a configured device that may be written to if the request writes, in a heap with a page to spare:
  -- if no three descriptors are free, the request fails. Its page is given back, so the heap is what
  -- it was, and so is the device with its flags; the device is not notified.
  pub request-full :
      (fuel buffer size offset : ℕ) (write : Bool) (w : World E)
      → w.device.dev ≢ 0
      → (w.device.read_only && write) ≡ false
      → IsReady 1 w.heap
      → (alloc_desc_chain w.device.queue.free).0 ≡ none
      → (req : ℕ) × (request hardware fuel buffer size offset write w
          ≡ done (false, record w { shared = write_request req buffer offset write w.shared }))
  unfolding request
  request-full fuel buffer size offset write w set_up allowed ready full =
      let (req, h, got, _, back) = allocate-IsReady ready in
      let flags = (alloc_desc_chain w.device.queue.free).1 in
      let none_found : alloc_desc_chain w.device.queue.free ≡ (none, flags) =
        (λ i. (full i, flags)) in
      let kept = alloc_desc_chain-none w.device.queue.free flags none_found in
      (req, rw (ne→== _ _ set_up, allowed, got, none_found, kept, back) refl)

  request-refused :
      (fuel buffer size offset : ℕ) (write : Bool) (w : World E)
      → (w.device.dev ≡ 0) ⊎ ((w.device.read_only && write) ≡ true)
      → request hardware fuel buffer size offset write w ≡ done (false, w)
  unfolding request
  request-refused fuel buffer size offset write w (inl unset) = rw unset refl
  request-refused fuel buffer size offset write w (inr forbidden) = ground (arith, forbidden)

  -- A slot out of range, one that no device is configured in, or a request that writes to a device that is
  -- read-only: the answer is false, and the slots, what is shared with the device and the heap are as
  -- they were.
  pub block_op-refused :
      (fuel dev buffer size offset : ℕ) (write : Bool) (devices : List BlockDevice) (w : World E)
      → (max_devices ≤ dev)
        ⊎ ((get_or devices dev empty_device).dev ≡ 0)
        ⊎ (((get_or devices dev empty_device).read_only && write) ≡ true)
      → (b : BlockDevice) × (block_op hardware fuel dev buffer size offset write devices w
          ≡ done (false, devices, record w { device = b }))
  unfolding block_op request
  block_op-refused fuel dev buffer size offset write devices w why =
      let b = get_or devices dev empty_device in
      elim (Bool-cases (leb max_devices dev)) [
        | inl far ↦ (w.device, rw far refl)
        | inr near ↦ elim why [
          | inl out ↦ absurd (ground arith)
          | inr reason ↦
              let refused =
                request-refused fuel buffer size offset write (record w { device = b }) reason in
              (b, rw near (rw refused (rw (set-get_or devices dev) refl)))
        ]
      ]
