-- ===== src/Virtio/Chain.antt =====
-- A chain of descriptors of src/drivers/virtio/device.rs is taken, linked and given back.
use vesper.Prelude.{
  ℕ, zero, suc, ◌<◌, ◌≤◌, ◌≡◌, refl, sym, ap, ◌∙◌, Bool, true, false, none, some, List, [], ◌∷◌,
  map, arith, done, length, length-set, bit_and, set, leb, ne→==,
}
use mathlib.Core.Path.{subst}
use vesper.Virtio.{
  desc_f_next, Descriptor, release, take_free, chain_of, alloc_desc_chain, free_desc_chain,
  Transfer, link_chain,
}

release-suc :
    (out : List ℕ) (b : Bool) (free : List Bool)
    → release (map suc out) (b ∷ free) ≡ b ∷ release out free
release-suc [] b free = refl
release-suc (i ∷ out) b free = release-suc out b (set free i true)

-- What was found can be given back.
release-take_free :
    (k : ℕ) (free : List Bool) → release (take_free k free).0 (take_free k free).1 ≡ free
unfolding take_free
release-take_free zero free = refl
release-take_free (suc k) [] = refl
release-take_free (suc k) (true ∷ free) =
    release-suc (take_free k free).0 true (take_free k free).1
    ∙ ap (λ r. true ∷ r) (release-take_free k free)
release-take_free (suc k) (false ∷ free) =
    release-suc (take_free (suc k) free).0 false (take_free (suc k) free).1
    ∙ ap (λ r. false ∷ r) (release-take_free (suc k) free)

-- Ascending indices below a bound.
Ascending : ℕ → List ℕ → ℕ → Type 0
Ascending low [] high = low ≤ high
Ascending low (i ∷ is) high = (low ≤ i) × Ascending (suc i) is high

Ascending-suc :
    (low : ℕ) (is : List ℕ) (high : ℕ)
    → Ascending low is high
    → Ascending (suc low) (map suc is) (suc high)
unfolding Ascending
Ascending-suc low [] high h = omega arith
Ascending-suc low (i ∷ is) high (le, rest) = (omega arith, Ascending-suc (suc i) is high rest)

Ascending-lower :
    (low : ℕ) (is : List ℕ) (high : ℕ) → Ascending (suc low) is high → Ascending low is high
unfolding Ascending
Ascending-lower low [] high h = omega arith
Ascending-lower low (i ∷ is) high (le, rest) = (omega arith, rest)

take_free-Ascending : (k : ℕ) (free : List Bool) → Ascending 0 (take_free k free).0 (length free)
unfolding take_free Ascending
take_free-Ascending zero free = omega arith
take_free-Ascending (suc k) [] = omega arith
take_free-Ascending (suc k) (true ∷ free) =
    (omega arith, Ascending-suc 0 (take_free k free).0 (length free) (take_free-Ascending k free))
take_free-Ascending (suc k) (false ∷ free) =
    Ascending-lower 0 _ _
      (Ascending-suc 0 (take_free (suc k) free).0 (length free) (take_free-Ascending (suc k) free))

length-take_free : (k : ℕ) (free : List Bool) → length (take_free k free).1 ≡ length free
unfolding take_free
length-take_free zero free = refl
length-take_free (suc k) [] = refl
length-take_free (suc k) (true ∷ free) = ap suc (length-take_free k free)
length-take_free (suc k) (false ∷ free) = ap suc (length-take_free (suc k) free)

-- What the search returns, by what it found.
chain_of-some :
    (r : List ℕ × List Bool) (a b c : ℕ) (free : List Bool)
    → chain_of r ≡ (some (a, b, c), free)
    → (r.0 ≡ a ∷ b ∷ c ∷ []) × (r.1 ≡ free)
chain_of-some ([], f) a b c free e = absurd (cc)
chain_of-some (x ∷ [], f) a b c free e = absurd (cc)
chain_of-some (x ∷ y ∷ [], f) a b c free e = absurd (cc)
chain_of-some (x ∷ y ∷ z ∷ [], f) a b c free e = (ground arith, ground arith)
chain_of-some (x ∷ y ∷ z ∷ w ∷ is, f) a b c free e = absurd (cc)

-- One descriptor that points at another is given back, and the walk goes on there.
free_desc_chain-next :
    (fuel : ℕ) (desc : ℕ → Descriptor) (i : ℕ) (free : List Bool)
    → i < length free
    → bit_and ((desc i).flags) desc_f_next ≡ 1
    → free_desc_chain (suc fuel) desc i free
      ≡ free_desc_chain fuel desc (desc i).next (set free i true)
unfolding free_desc_chain
free_desc_chain-next fuel desc i free lt flags =
    let inside : leb (length free) i ≡ false = ground arith in rw (inside, flags)

-- The last descriptor is given back.
free_desc_chain-last :
    (fuel : ℕ) (desc : ℕ → Descriptor) (i : ℕ) (free : List Bool)
    → i < length free
    → bit_and ((desc i).flags) desc_f_next ≡ 0
    → free_desc_chain (suc fuel) desc i free ≡ done (set free i true)
unfolding free_desc_chain
free_desc_chain-last fuel desc i free lt flags =
    let inside : leb (length free) i ≡ false = ground arith in rw (inside, flags)

-- The descriptors of a linked chain.
module _ (t : Transfer) (a b c : ℕ) (desc : ℕ → Descriptor) (ab : a < b) (bc : b < c) where
  linked : ℕ → Descriptor
  linked = link_chain t (a, b, c) desc

  linked-head : (bit_and ((linked a).flags) desc_f_next ≡ 1) × ((linked a).next ≡ b)
  unfolding linked link_chain
  linked-head = rw (ne→== a c (omega arith), ne→== a b (omega arith)) (ground arith, ground arith)

  linked-body : (bit_and ((linked b).flags) desc_f_next ≡ 1) × ((linked b).next ≡ c)
  unfolding linked link_chain
  linked-body = rw (ne→== b c (omega arith)) (ground arith, ground arith)

  linked-last : bit_and ((linked c).flags) desc_f_next ≡ 0
  unfolding linked link_chain
  linked-last = ground arith

  free_desc_chain-linked :
      (fuel : ℕ) (free : List Bool)
      → c < length free
      → free_desc_chain (suc (suc (suc fuel))) linked a free ≡ done (release (a ∷ b ∷ c ∷ []) free)
  free_desc_chain-linked fuel free lt =
      let (flags_a, next_a) = linked-head in
      let (flags_b, next_b) = linked-body in
      free_desc_chain-next (suc (suc fuel)) linked a free (omega arith) flags_a
      ∙ ap (λ i. free_desc_chain (suc (suc fuel)) linked i (set free a true)) next_a
      ∙ free_desc_chain-next (suc fuel) linked b (set free a true)
          (omega (arith, length-set free a true)) flags_b
      ∙ ap (λ i. free_desc_chain (suc fuel) linked i (set (set free a true) b true)) next_b
      ∙ free_desc_chain-last fuel linked c (set (set free a true) b true)
          (omega (arith, length-set free a true, length-set (set free a true) b true)) linked-last

-- What `alloc_desc_chain` finds is three different descriptors of the ring, in ascending order.
-- Linked as `block_op` links them, `free_desc_chain` from the first one ends, with fuel for at
-- least three steps, and the flags are as they were before the chain was taken.
pub free_desc_chain-alloc_desc_chain :
    (t : Transfer) (desc : ℕ → Descriptor) (fuel a b c : ℕ) (free free' : List Bool)
    → alloc_desc_chain free ≡ (some (a, b, c), free')
    → (a < b)
      × (b < c)
      × (c < length free)
      × (free_desc_chain (suc (suc (suc fuel))) (link_chain t (a, b, c) desc) a free' ≡ done free)
unfolding alloc_desc_chain Ascending linked
free_desc_chain-alloc_desc_chain t desc fuel a b c free free' e =
    let (found, left) = chain_of-some (take_free 3 free) a b c free' e in
    let (_, (ab, (bc, top))) : Ascending 0 (a ∷ b ∷ c ∷ []) (length free) =
      subst (λ l. Ascending 0 l (length free)) found (take_free-Ascending 3 free) in
    let size : length free' ≡ length free = ap length (sym left) ∙ length-take_free 3 free in
    (
      ab,
      bc,
      top,
      free_desc_chain-linked t a b c desc ab bc fuel free' (omega (arith, size))
          ∙ ap done (
              cc (
                ap (λ l. release l free') found,
                ap (release (take_free 3 free).0) left,
                release-take_free 3 free,
              )),
    )

-- If `alloc_desc_chain` finds no three free descriptors, the flags are as they were.
pub alloc_desc_chain-none :
    (free free' : List Bool) → alloc_desc_chain free ≡ (none, free') → free' ≡ free
unfolding alloc_desc_chain
alloc_desc_chain-none free free' e =
    chain_of-none (take_free 3 free) free' e ∙ release-take_free 3 free
  where
    chain_of-none :
        (r : List ℕ × List Bool) (free : List Bool)
        → chain_of r ≡ (none, free)
        → free ≡ release r.0 r.1
    chain_of-none ([], f) free e = ground arith
    chain_of-none (x ∷ [], f) free e = ground arith
    chain_of-none (x ∷ y ∷ [], f) free e = ground arith
    chain_of-none (x ∷ y ∷ z ∷ [], f) free e = absurd (cc)
    chain_of-none (x ∷ y ∷ z ∷ w ∷ is, f) free e = ground arith
