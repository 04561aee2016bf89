-- ===== src/Sv39/Grow.antt =====
-- `map` of src/mm/paging/sv39/map.rs on its way down: a table is there, or it is allocated.
use mathlib.Core.Bool.{false≢true}
use vesper.Prelude.{
  inr, inl, get_or, arith, ℕ, ◌<◌, ◌≡◌, ◌≢◌, refl, sym, ap, ◌∙◌, true, false, Option, some, ne→==,
  ℕ_discrete,
}
use vesper.PageFrame.Fresh.{Taken, IsFramed, IsHeld}
use vesper.PageFrame.{Memory}
use vesper.Sv39.{Space, table_len, is_valid, is_leaf, vpn, pte_to_addr, resolve, v2p}
use vesper.Sv39.Pointer.{pointer-is_valid, pointer, pointer-is_leaf, pte_to_addr-pointer}
use vesper.Sv39.Tree.{
  page, depth-below_top, mid, low, Node, top, depth, below, slot, Hangs, InPlace, IsTree, vpn-lt,
  entry_addr-slot, slot-inj,
}
use vesper.Sv39.Link.{IsLinked, tagged-IsFrame, resolve-link, tag_new, tag_new-old, tag_new_self}
use vesper.Sv39.Grown.{Gain, Grown}

pub some-inj : {n m : Node} → some m ≡ some n → m ≡ n
some-inj e = cc

InPlace-below :
    (root : ℕ) (tag : ℕ → Option Node) (mem : Memory) (q : ℕ) (n : Node) (i : ℕ)
    → 0 < depth n
    → Hangs tag mem q n i
    → InPlace root tag mem q (below n i)
InPlace-below root tag mem q top i inner h = h
InPlace-below root tag mem q (mid j) i inner h = h
InPlace-below root tag mem q (low j k) i inner h = absurd (omega arith)

pub InPlace-old :
    (root : ℕ) (tag tag' : ℕ → Option Node) (mem mem' : Memory) (q : ℕ) (m : Node)
    → ((i : ℕ) (n : Node) → 0 < depth n → Hangs tag mem q n i → Hangs tag' mem' q n i)
    → InPlace root tag mem q m
    → InPlace root tag' mem' q m
InPlace-old root tag tag' mem mem' q top kept h = h
InPlace-old root tag tag' mem mem' q (mid i) kept h = kept i top (omega arith) h
InPlace-old root tag tag' mem mem' q (low i j) kept h = kept j (mid i) (omega arith) h

pub zero_bad : is_valid 0 ≢ true
unfolding is_valid
zero_bad e = false≢true e

module _ {root : ℕ} {tag : ℕ → Option Node} {s : Space} (tree : IsTree root tag s) (s' : Space)
    {p i c : ℕ} {n : Node} (link : IsLinked tag s.mem s'.mem p i c n) (framed : IsFramed s'.heap)
    (positive : 0 < s'.heap.alloc_start) (taken : IsHeld s'.heap c)
    (kept : (q : ℕ) → IsHeld s.heap q → IsHeld s'.heap q) (change : Taken s.heap s'.heap c) where
  abbrev tag' : ℕ → Option Node
  tag' = tag_new tag c (below n i)

  held-link : (q : ℕ) (m : Node) → tag' q ≡ some m → IsHeld s'.heap q
  held-link q m at = elim (ℕ_discrete q c) [
    | yes e ↦ rw e taken
    | no ne ↦ kept q (tree.held q m (rw (ne→== q c ne) at at))
  ]

  -- An entry that was valid stays, and so does the table above it.
  Hangs-link : (q i' : ℕ) (m : Node) → Hangs tag s.mem q m i' → Hangs tag' s'.mem q m i'
  Hangs-link q i' m h =
      let kept =
        link.others h.parent i' m h.place h.inside
          (λ e. false≢true (sym (ap (λ a. is_valid (s.mem a)) e ∙ link.bad) ∙ h.valid)) in
      record {
        parent = h.parent;
        place = tag_new-old tag c h.parent (below n i) m link.fresh h.place;
        inside = h.inside;
        valid = ap is_valid kept ∙ h.valid;
        leads_to = ap pte_to_addr kept ∙ h.leads_to;
      }

  new-Hangs : Hangs tag' s'.mem c n i
  new-Hangs = record {
    parent = p;
    place = tag_new-old tag c p (below n i) n link.fresh link.parent;
    inside = link.place;
    valid = ap is_valid link.linked ∙ pointer-is_valid link.frame;
    leads_to = ap pte_to_addr link.linked ∙ pte_to_addr-pointer link.frame;
  }

  InPlace-link : (q : ℕ) (m : Node) → tag' q ≡ some m → InPlace root tag' s'.mem q m
  InPlace-link q m at = elim (ℕ_discrete q c) [
    | yes e ↦
        let node : some m ≡ some (below n i) =
          sym at ∙ ap tag' e ∙ tag_new_self tag c (below n i) in
        rw (some-inj node) (rw e (InPlace-below root tag' s'.mem c n i link.inner new-Hangs))
    | no ne ↦
        InPlace-old root tag tag' s.mem s'.mem q m (λ j k inner. Hangs-link q j k)
          (tree.in_place q m (rw (ne→== q c ne) at at))
  ]

  branch-link :
      (q : ℕ) (m : Node) (j : ℕ)
      → tag' q ≡ some m
      → 0 < depth m
      → j < table_len
      → is_valid (s'.mem (slot q j)) ≡ true
      → (is_leaf (s'.mem (slot q j)) ≡ false)
        × (tag' (pte_to_addr (s'.mem (slot q j))) ≡ some (below m j))
  branch-link q m j at inner lj ok = elim (ℕ_discrete q c) [
    | yes e ↦
        let none_there : s'.mem (slot q j) ≡ 0 = rw e (link.zeroed j lj) in
        absurd (zero_bad (sym (ap is_valid none_there) ∙ ok))
    | no ne ↦
        let old : tag q ≡ some m = rw (ne→== q c ne) at at in
        elim (ℕ_discrete (slot q j) (slot p i)) [
          | yes same ↦
              let (base, place) =
                slot-inj j i (tagged-IsFrame tree q m old) (tagged-IsFrame tree p n link.parent) lj
                  link.place same in
              let node : n ≡ m = cc (link.parent, old, ap tag base) in
              let e' : s'.mem (slot q j) ≡ pointer c = ap s'.mem same ∙ link.linked in
              (
                ap is_leaf e' ∙ pointer-is_leaf link.frame,
                ap (λ e. tag' (pte_to_addr e)) e'
                    ∙ ap tag' (pte_to_addr-pointer link.frame)
                    ∙ tag_new_self tag c (below n i)
                    ∙ ap (λ t. some (below t i)) node
                    ∙ ap (λ t. some (below m t)) (sym place),
              )
          | no apart ↦
              let kept_entry = link.others q j m old lj apart in
              let (leafless, child) =
                tree.branch q m j old inner lj (ap is_valid (sym kept_entry) ∙ ok) in
              (
                ap is_leaf kept_entry ∙ leafless,
                ap (λ e. tag' (pte_to_addr e)) kept_entry
                    ∙ tag_new-old tag c (pte_to_addr (s.mem (slot q j))) (below n i) (below m j)
                        link.fresh child,
              )
        ]
  ]

  link-Gain :
      (j : ℕ)
      → Gain (tag (page s j)) (tag' (page s j)) (get_or s.heap.table j 0) (get_or s'.heap.table j 0)
  link-Gain j = elim (ℕ_discrete (page s j) c) [
    | yes e ↦ inr (
      below n i,
      ap tag e ∙ link.fresh,
      ap tag' e ∙ tag_new_self tag c (below n i),
      depth-below_top n i link.inner,
      change.was_free j (sym e),
    )
    | no ne ↦ inl (rw (ne→== (page s j) c ne) refl, change.others j (λ e. ne (sym e)))
  ]

  pub Grown-link : Grown root tag tag' s s'
  unfolding v2p
  Grown-link = record {
    tree = record {
      framed = framed;
      positive = positive;
      at_top = tag_new-old tag c root (below n i) top link.fresh tree.at_top;
      held = held-link;
      in_place = InPlace-link;
      branch = branch-link;
    };
    extends = λ q m at. tag_new-old tag c q (below n i) m link.fresh at;
    stays = λ q j m at lj ok.
        link.others q j m at lj
          (λ e. false≢true (sym (ap (λ a. is_valid (s.mem a)) e ∙ link.bad) ∙ ok));
    same_start = change.same_start;
    same_length = change.same_length;
    gains = link-Gain;
    same = λ vaddr.
        let f = tagged-IsFrame tree root top tree.at_top in
        ap (resolve s'.mem vaddr 2) (entry_addr-slot (vpn vaddr 2) f (vpn-lt vaddr 2))
        ∙ resolve-link tree s'.mem link vaddr 2 root top tree.at_top refl
        ∙ sym (ap (resolve s.mem vaddr 2) (entry_addr-slot (vpn vaddr 2) f (vpn-lt vaddr 2)));
  }
