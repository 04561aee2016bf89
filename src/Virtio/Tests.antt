-- ===== src/Virtio/Tests.antt =====
-- A chain in a ring of eight descriptors (src/drivers/virtio/device.rs) with two taken, and in one that is full.
use vesper.Prelude.{
  ℕ, ◌<◌, ◌≡◌, refl, Bool, true, false, none, some, List, [], ◌∷◌, replicate, done, length,
}
use vesper.Virtio.{Descriptor, alloc_desc_chain, free_desc_chain, Transfer, link_chain}
use vesper.Virtio.Chain.{free_desc_chain-alloc_desc_chain}

abbrev ring : List Bool
ring = false ∷ true ∷ false ∷ true ∷ true ∷ true ∷ true ∷ true ∷ []

abbrev ring_after : List Bool
ring_after = false ∷ false ∷ false ∷ false ∷ false ∷ true ∷ true ∷ true ∷ []

-- One descriptor is left.
abbrev ring_full : List Bool
ring_full = false ∷ false ∷ true ∷ replicate 5 false

abbrev transfer : Transfer
transfer = record { header = 0x1000; buffer = 0x2000; size = 1024; status = 0x1020; write = true }

abbrev desc : ℕ → Descriptor
desc i = record { addr = 0; len = 0; flags = 0; next = 0 }

alloc_ring : alloc_desc_chain ring ≡ (some (1, 3, 4), ring_after)
unfolding alloc_desc_chain
alloc_ring = refl

alloc_full : alloc_desc_chain ring_full ≡ (none, ring_full)
unfolding alloc_desc_chain
alloc_full = refl

free_desc_chain-alloc_desc_chain_example :
    (1 < 3)
    × (3 < 4)
    × (4 < length ring)
    × (free_desc_chain 8 (link_chain transfer (1, 3, 4) desc) 1 ring_after ≡ done ring)
free_desc_chain-alloc_desc_chain_example =
    free_desc_chain-alloc_desc_chain transfer desc 5 1 3 4 ring ring_after alloc_ring
