-- ===== src/Virtio/Device/Tests.antt =====
-- A block device of src/drivers/virtio/device.rs over hardware that writes the status in its second step.
use vesper.Prelude.{
  Bool, ℕ, ◌+◌, ◌≡◌, ◌≢◌, refl, true, false, none, some, List, ◌∷◌, arith, replicate, done, ◌==◌,
  map_done,
}
use vesper.PageFrame.{allocate, deallocate}
use vesper.PageFrame.Ready.{weaken-IsReady}
use vesper.Virtio.{alloc_desc_chain, link_chain}
use vesper.Virtio.Device.{World, status_offset, write_request, irq, request}
use vesper.Virtio.Device.Idle.{after}
use vesper.Virtio.Device.Serve.{request-serves, published, Over}
use vesper.Virtio.Device.Refuse.{request-full}
use vesper.Virtio.Device.Sample.{
  heap, heap-IsReady, hardware, hardware-Writes, shared, disk, world, disk-IsIdle,
}

request-serves_example :
    (req n : ℕ) × (w' : World ℕ) × (request hardware 2 0x9000 1024 2048 false world
      ≡ done ((w'.shared).bytes (req + status_offset) == 0, w'))
    × ((w'.shared).bytes (req + status_offset) ≢ 0xff)
    × Over req disk w'.device
    × (w'.heap ≡ heap)
    × (w'.shared ≡ after hardware n 3 (published req 0x9000 1024 2048 false shared))
request-serves_example =
    request-serves hardware 1 2 0x9000 1024 2048 false world (omega arith) (ground arith) refl
      (weaken-IsReady (omega arith) heap-IsReady) disk-IsIdle hardware-Writes

abbrev busy : World ℕ
busy = record world {
  device = record disk {
    queue = record (disk.queue) { free = false ∷ false ∷ true ∷ replicate 5 false };
  };
}

busy_none : (alloc_desc_chain busy.device.queue.free).0 ≡ none
unfolding alloc_desc_chain
busy_none = refl

request-full_example :
    (req : ℕ) × (request hardware 2 0x9000 1024 2048 true busy
      ≡ done (false, record busy { shared = write_request req 0x9000 2048 true shared }))
request-full_example =
    request-full hardware 2 0x9000 1024 2048 true busy (ground arith) refl
      (weaken-IsReady (omega arith) heap-IsReady) busy_none

irq_slot : irq disk ≡ some 2
unfolding irq
irq_slot = refl

-- The status is written behind the look at the used ring: the chain stays taken.
taken_run :
    map_done {B = Bool × List Bool}
      (λ r. (r.0, (r.1).device.queue.free))
      (request hardware 2 0x9000 1024 2048 false world)
    ≡ done (true, false ∷ false ∷ false ∷ replicate 5 true)
unfolding request allocate deallocate alloc_desc_chain link_chain
taken_run = refl
