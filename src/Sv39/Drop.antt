-- ===== src/Sv39/Drop.antt =====
-- A table that `unmap` of src/mm/paging/sv39/map.rs gives back: no table hangs behind it, and its entry is zeroed.
use mathlib.Core.Path.{subst}
use vesper.Prelude.{
  ℕ, ◌<◌, ◌≡◌, ◌≢◌, refl, sym, ap, ◌∙◌, true, false, Option, none, some, arith, ◌==◌, ne→==, ==_iff,
  if◌then◌else◌, ℕ_discrete,
}
use vesper.PageFrame.{Heap}
use vesper.PageFrame.Release.{Released, IsHeld-Released}
use vesper.Sv39.{Space, table_len, is_valid, is_leaf, pte_to_addr, write_word}
use vesper.Sv39.Tree.{
  depth-below_top, Node, top, mid, low, depth, below, slot, Hangs, IsTree, slot-inj,
}
use vesper.Sv39.Link.{tagged-IsFrame}
use vesper.Sv39.Grow.{some-inj, InPlace-old, zero_bad}
use vesper.Sv39.Walk.{write_word-same, write_word-other}

-- The place of a table, taken apart.
above : Node → Node
above top = top
above (mid i) = top
above (low i j) = mid i

entry_of : Node → ℕ
entry_of top = 0
entry_of (mid i) = i
entry_of (low i j) = j

above-below :
    (n : Node) (i : ℕ) → 0 < depth n → (above (below n i) ≡ n) × (entry_of (below n i) ≡ i)
unfolding above entry_of
above-below top i pos = (refl, refl)
above-below (mid j) i pos = (refl, refl)
above-below (low j k) i pos = absurd (omega arith)

below-inj :
    (n m : Node) (i j : ℕ) → 0 < depth n → 0 < depth m → below n i ≡ below m j → (n ≡ m) × (i ≡ j)
below-inj n m i j pos pos' e =
    let (a, b) = above-below n i pos in
    let (a', b') = above-below m j pos' in (sym a ∙ ap above e ∙ a', sym b ∙ ap entry_of e ∙ b')

-- The table has lost its place.
abbrev pub tag_drop : (ℕ → Option Node) → ℕ → ℕ → Option Node
tag_drop tag c q = if q == c then none else tag q

pub tag_drop_other : (tag : ℕ → Option Node) (c q : ℕ) → q ≢ c → tag_drop tag c q ≡ tag q
tag_drop_other tag c q ne = rw (ne→== q c ne) refl

pub tag_drop_self : (tag : ℕ → Option Node) (c : ℕ) → tag_drop tag c c ≡ none
tag_drop_self tag c = rw ((==_iff c c).1 refl) refl

pub tag_drop_old :
    (tag : ℕ → Option Node) (c q : ℕ) (m : Node)
    → tag_drop tag c q ≡ some m
    → (q ≢ c) × (tag q ≡ some m)
tag_drop_old tag c q m at = elim (ℕ_discrete q c) [
  | yes e ↦
      let gone : tag_drop tag c q ≡ none = ap (tag_drop tag c) e ∙ tag_drop_self tag c in
      absurd (cc (gone, at))
  | no ne ↦ (ne, sym (tag_drop_other tag c q ne) ∙ at)
]

module _ {root : ℕ} {tag : ℕ → Option Node} {s : Space} (tree : IsTree root tag s) where
  only_top : (p q : ℕ) → tag p ≡ some top → tag q ≡ some top → p ≡ q
  only_top p q at at' = tree.in_place p top at ∙ sym (tree.in_place q top at')

  only_mid : (p q i : ℕ) → tag p ≡ some (mid i) → tag q ≡ some (mid i) → p ≡ q
  only_mid p q i at at' =
      let h = tree.in_place p (mid i) at in
      let g = tree.in_place q (mid i) at' in
      sym h.leads_to
      ∙ ap (λ t. pte_to_addr (s.mem (slot t i))) (only_top h.parent g.parent h.place g.place)
      ∙ g.leads_to

  -- A place has one table.
  pub only_place : (p q : ℕ) (n : Node) → tag p ≡ some n → tag q ≡ some n → p ≡ q
  only_place p q top at at' = only_top p q at at'
  only_place p q (mid i) at at' = only_mid p q i at at'
  only_place p q (low i j) at at' =
      let h = tree.in_place p (low i j) at in
      let g = tree.in_place q (low i j) at' in
      sym h.leads_to
      ∙ ap (λ t. pte_to_addr (s.mem (slot t j))) (only_mid h.parent g.parent i h.place g.place)
      ∙ g.leads_to

  module _ (p i : ℕ) (n : Node) (at : tag p ≡ some n) (inner : 0 < depth n) (place : i < table_len)
      (valid : is_valid (s.mem (slot p i)) ≡ true)
      (childless : (q j : ℕ) → 0 < depth (below n i) → Hangs tag s.mem q (below n i) j → ⊥)
      (h' : Heap) (released : Released s.heap h' (pte_to_addr (s.mem (slot p i)))) where
    abbrev c : ℕ
    c = pte_to_addr (s.mem (slot p i))

    abbrev pub dropped : Space
    dropped = record { mem = write_word (slot p i) 0 s.mem; heap = h' }

    c_tag : tag c ≡ some (below n i)
    c_tag = (tree.branch p n i at inner place valid).1

    -- Another entry is as it was.
    entry_kept : (q j : ℕ) → slot q j ≢ slot p i → dropped.mem (slot q j) ≡ s.mem (slot q j)
    entry_kept q j ne = write_word-other s.mem (slot p i) 0 (slot q j) ne

    same_place :
        (q j : ℕ) (m : Node)
        → tag q ≡ some m
        → j < table_len
        → slot q j ≡ slot p i
        → (q ≡ p) × (j ≡ i)
    same_place q j m at_q lj e =
        slot-inj j i (tagged-IsFrame tree q m at_q) (tagged-IsFrame tree p n at) lj place e

    kept-Hangs :
        (q j : ℕ) (m : Node)
        → q ≢ c
        → 0 < depth m
        → Hangs tag s.mem q m j
        → Hangs (tag_drop tag c) dropped.mem q m j
    kept-Hangs q j m ne pos h =
        let apart : slot h.parent j ≢ slot p i = λ e.
          let (e_p, e_j) = same_place h.parent j m h.place h.inside e in
          ne (sym h.leads_to ∙ ap (λ v. pte_to_addr (s.mem v)) e) in
        let kept = entry_kept h.parent j apart in
        let alive : h.parent ≢ c = λ e.
          let place_same : m ≡ below n i = some-inj (sym h.place ∙ ap tag e ∙ c_tag) in
          childless q j (subst (λ k. 0 < depth k) place_same pos)
            (subst (λ k. Hangs tag s.mem q k j) place_same h) in
        record {
          parent = h.parent;
          place = tag_drop_other tag c h.parent alive ∙ h.place;
          inside = h.inside;
          valid = ap is_valid kept ∙ h.valid;
          leads_to = ap pte_to_addr kept ∙ h.leads_to;
        }

    branch_kept :
        (q : ℕ) (m : Node) (j : ℕ)
        → tag_drop tag c q ≡ some m
        → 0 < depth m
        → j < table_len
        → is_valid (dropped.mem (slot q j)) ≡ true
        → (is_leaf (dropped.mem (slot q j)) ≡ false)
          × (tag_drop tag c (pte_to_addr (dropped.mem (slot q j))) ≡ some (below m j))
    branch_kept q m j at_q pos lj ok =
        let (ne, old) = tag_drop_old tag c q m at_q in
        let apart : slot q j ≢ slot p i = λ e.
          zero_bad
            (sym (ap is_valid (ap dropped.mem e ∙ write_word-same s.mem (slot p i) 0)) ∙ ok) in
        let kept = entry_kept q j apart in
        let (leafless, child) = tree.branch q m j old pos lj (ap is_valid (sym kept) ∙ ok) in
        let alive : pte_to_addr (s.mem (slot q j)) ≢ c = λ e.
          let (same, place_same) =
            below-inj m n j i pos inner (some-inj (sym child ∙ ap tag e ∙ c_tag)) in
          let base = only_place q p n (old ∙ ap some same) at in
          apart (omega (arith, base, place_same)) in
        (
          ap is_leaf kept ∙ leafless,
          ap (λ e. tag_drop tag c (pte_to_addr e)) kept
              ∙ tag_drop_other tag c (pte_to_addr (s.mem (slot q j))) alive
              ∙ child,
        )

    pub IsTree-dropped : IsTree root (tag_drop tag c) dropped
    IsTree-dropped = record {
      framed = record {
        aligned = omega (arith, released.same_start, tree.framed.aligned);
        low = omega (arith, released.same_start, released.same_length, tree.framed.low);
      };
      positive = omega (arith, released.same_start, tree.positive);
      at_top =
          tag_drop_other tag c root (λ e. omega (
            arith,
            ap depth (some-inj (sym tree.at_top ∙ ap tag e ∙ c_tag)),
            depth-below_top n i inner,
          ))
          ∙ tree.at_top;
      held = λ q m at_q.
          let (ne, old) = tag_drop_old tag c q m at_q in
          IsHeld-Released released ne (tree.held q m old);
      in_place = λ q m at_q.
          let (ne, old) = tag_drop_old tag c q m at_q in
          InPlace-old root tag (tag_drop tag c) s.mem dropped.mem q m
            (λ j k pos. kept-Hangs q j k ne pos) (tree.in_place q m old);
      branch = branch_kept;
    }
