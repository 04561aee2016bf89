-- ===== src/Virtio/Device/Serve.antt =====
-- A whole request of src/drivers/virtio/device.rs, over a device that answers.
use vesper.Prelude.{
  ℕ, ◌+◌, ◌%◌, ◌^◌, ◌<◌, ◌≡◌, ◌≢◌, refl, ap, ◌∙◌, Bool, true, false, ◌&&◌, List, ◌∷◌, ◌≤◌, ◌⊎◌, inl,
  inr, arith, done, ◌==◌, ne→==, set, some, replicate,
}
use vesper.PageFrame.Ready.{IsReady, allocate-IsReady}
use vesper.Virtio.{Transfer, alloc_desc_chain}
use vesper.Virtio.Chain.{free_desc_chain-alloc_desc_chain}
use vesper.Virtio.Device.{
  BlockDevice, Shared, Hardware, World, ring_size, status_offset, complete, acknowledge,
  write_request, publish, request,
}
use vesper.Virtio.Device.Idle.{IsIdle, Completes, after}
use vesper.Virtio.Device.Poll.{poll-answer}

-- The chain that an idle queue has to give.
idle-chain :
    (free' : List Bool)
    → free' ≡ (alloc_desc_chain (replicate ring_size true)).1
    → alloc_desc_chain (replicate ring_size true) ≡ (some (0, 1, 2), free')
unfolding alloc_desc_chain
idle-chain free' e = rw e refl

-- The device with the request under way, and with its chain given back.
abbrev in_flight : BlockDevice → List Bool → ℕ → BlockDevice
in_flight b free req = record b {
  queue = record (b.queue) { free = free; req_head = set b.queue.req_head 0 req };
}

abbrev settled : BlockDevice → BlockDevice
settled b = record b {
  queue = record (b.queue) { free = replicate ring_size true; req_head = replicate ring_size 0 };
  ack_used_idx = (b.ack_used_idx + 1) % 2 ^ 16;
}

complete-in_flight :
    (t : Transfer) (s : Shared) (b : BlockDevice) (free : List Bool) (req : ℕ)
    → alloc_desc_chain (replicate ring_size true) ≡ (some (0, 1, 2), free)
    → b.queue.req_head ≡ replicate ring_size 0
    → complete (publish t (0, 1, 2) s).desc 0 (acknowledge (in_flight b free req))
      ≡ done (settled b)
complete-in_flight t s b free req taken heads =
    let (_, _, _, back) =
      free_desc_chain-alloc_desc_chain t s.desc 5 0 1 2 (replicate ring_size true) free taken in
    rw back (rw heads refl)

-- What `block_op` writes for a request at `req`.
abbrev pub transfer_of : ℕ → ℕ → ℕ → Bool → Transfer
transfer_of req buffer size write = record {
  header = req;
  buffer = buffer;
  size = size;
  status = req + status_offset;
  write = write;
}

abbrev pub published : ℕ → ℕ → ℕ → ℕ → Bool → Shared → Shared
published req buffer size offset write s =
    publish (transfer_of req buffer size write) (0, 1, 2) (write_request req buffer offset write s)

-- The request is over and its page given back: the queue is idle again, or the chain is not yet given back and
-- its entry of the used ring not yet seen.
abbrev pub Over : ℕ → BlockDevice → BlockDevice → Type 0
Over req b b' =
    (b' ≡ record b {
      queue = record (b.queue) { free = replicate 8 true; req_head = replicate 8 0 };
      ack_used_idx = (b.ack_used_idx + 1) % 2 ^ 16;
    })
    ⊎ (b' ≡ record b {
      queue = record (b.queue) {
        free = false ∷ false ∷ false ∷ replicate 5 true;
        req_head = req ∷ replicate 7 0;
      };
    })

module _ {E : Type 0} (hardware : Hardware E) (bound : ℕ) where
  -- The hardware writes the status of this request within `bound` steps.
  abbrev pub Writes : ℕ → ℕ → ℕ → Bool → World E → ℕ → Type 0
  Writes buffer size offset write w req =
      let s = published req buffer size offset write w.shared in
      (k : ℕ) × (k ≤ bound)
      × Completes hardware w.shared.used_idx 0 (req + status_offset) s.desc k
          (hardware.notify w.env) s

  -- A request on a configured device whose queue is idle, in a heap with a page to spare, if it does not
  -- write to a device that is read-only, where the hardware, wherever the request's page is, writes its
  -- status within `bound` steps behind the notification, and the entry of the used ring not before:
  -- with more fuel than that the request returns, whether the status that was written is 0. The heap is
  -- what it was, and the hardware worked on the request, its chain and its notification as `block_op`
  -- wrote them. Either the queue is idle again, or, where the entry was not there when the driver
  -- looked, the chain is still taken and still names the request, whose page was given back.
  pub request-serves :
      (fuel buffer size offset : ℕ) (write : Bool) (w : World E)
      → bound < fuel
      → w.device.dev ≢ 0
      → (w.device.read_only && write) ≡ false
      → IsReady 1 w.heap
      → IsIdle w.device w.shared
      → ((req : ℕ) → Writes buffer size offset write w req)
      → (req n : ℕ) × (w' : World E) × (request hardware fuel buffer size offset write w
          ≡ done ((w'.shared).bytes (req + status_offset) == 0, w'))
        × ((w'.shared).bytes (req + status_offset) ≢ 0xff)
        × Over req w.device w'.device
        × (w'.heap ≡ w.heap)
        × (w'.shared
            ≡ after hardware n
                (hardware.notify w.env)
                (published req buffer size offset write w.shared))
  unfolding request alloc_desc_chain
  request-serves fuel buffer size offset write w lt set_up allowed ready idle writes =
      let (req, h, got, _, back) = allocate-IsReady ready in
      let free = (alloc_desc_chain (replicate ring_size true)).1 in
      let taken = idle-chain free refl in
      let chain : alloc_desc_chain w.device.queue.free ≡ (some (0, 1, 2), free) =
        ap alloc_desc_chain idle.free ∙ taken in
      let (k, le, completes) = writes req in
      let w₁ : World E = record w {
        device = in_flight w.device free req;
        shared = published req buffer size offset write w.shared;
        env = hardware.notify w.env;
        heap = h;
      } in
      let (n, w', ends, device, status, shared, heap) =
        poll-answer hardware w.shared.used_idx 0 (req + status_offset) (w₁.shared).desc
          (settled w.device) k fuel w₁ idle.acked idle.small
          (complete-in_flight (transfer_of req buffer size write)
            (write_request req buffer offset write w.shared) w.device free req taken idle.heads)
          completes (omega arith) in
      (
        req,
        n,
        record w' { heap = w.heap },
        rw (ne→== _ _ set_up, allowed, got, chain) (rw ends (rw heap (rw back refl))),
        status,
        elim device [
          | inl held ↦ inr (
              held
              ∙ ap
                  (λ r. record (in_flight w.device free req) {
                    queue = record (w.device.queue) { free = free; req_head = set r 0 req };
                  })
                  idle.heads)
          | inr given ↦ inl given
        ],
        refl,
        shared,
      )
