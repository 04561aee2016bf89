-- ===== src/Sv39/Isolation.antt =====
-- The tables of src/mm/paging/sv39/map.rs and a page that src/mm/alloc/page_frame.rs hands out to others.
use mathlib.Core.Path.{subst}
use vesper.Prelude.{
  ℕ, zero, suc, ◌+◌, ◌<◌, ◌≤◌, ◌≡◌, ◌≢◌, refl, sym, ap, ◌∙◌, Option, some, arith, inl, inr, ◌⊎◌,
  Bool-cases, done, leb, ltb, ◌&&◌, if◌then◌else◌,
}
use vesper.PageFrame.{Heap, Memory, page_size, allocate}
use vesper.PageFrame.Ready.{IsReady}
use vesper.PageFrame.Fresh.{IsHeld, IsFramed, allocate-IsHeld}
use vesper.Sv39.{Space, table_len, is_valid, is_leaf, pte_to_addr, vpn, resolve, v2p}
use vesper.Sv39.Tree.{
  Node, top, depth, below, slot, Hangs, IsTree, IsFrame, vpn-lt, held-IsFrame, entry_addr-slot,
}
use vesper.Sv39.Link.{tagged-IsFrame, resolve-invalid, resolve-branch, resolve-same, depth-below}
use vesper.Sv39.Grow.{InPlace-old}

module _ {root : ℕ} {tag : ℕ → Option Node} {s : Space} (tree : IsTree root tag s) (mem' : Memory)
    (agree : (q j : ℕ) (n : Node)
      → tag q ≡ some n
      → j < table_len
      → mem' (slot q j) ≡ s.mem (slot q j)) where
  resolve-agree :
      (w k q : ℕ) (m : Node)
      → tag q ≡ some m
      → depth m ≡ k
      → resolve mem' w k (slot q (vpn w k)) ≡ resolve s.mem w k (slot q (vpn w k))
  resolve-agree w zero q m at level =
      resolve-same s.mem mem' w (slot q (vpn w 0)) (agree q (vpn w 0) m at (vpn-lt w 0))
  resolve-agree w (suc k) q m at level =
      let v = slot q (vpn w (suc k)) in
      let kept = agree q (vpn w (suc k)) m at (vpn-lt w (suc k)) in
      elim (Bool-cases (is_valid (s.mem v))) [
        | inl ok ↦
            let c = pte_to_addr (s.mem v) in
            let (leafless, child) =
              tree.branch q m (vpn w (suc k)) at (omega arith) (vpn-lt w (suc k)) ok in
            let f = tagged-IsFrame tree c (below m (vpn w (suc k))) child in
            resolve-branch mem' w k v c f (ap is_valid kept ∙ ok) (ap is_leaf kept ∙ leafless)
              (ap pte_to_addr kept)
            ∙ resolve-agree w k c (below m (vpn w (suc k))) child
                (depth-below m (vpn w (suc k)) k level)
            ∙ sym (resolve-branch s.mem w k v c f ok leafless refl)
        | inr bad ↦
            resolve-invalid mem' w (suc k) v (ap is_valid kept ∙ bad)
            ∙ sym (resolve-invalid s.mem w (suc k) v bad)
      ]

  v2p-agree : (w : ℕ) → v2p mem' root w ≡ v2p s.mem root w
  unfolding v2p
  v2p-agree w =
      let there =
        entry_addr-slot (vpn w 2) (tagged-IsFrame tree root top tree.at_top) (vpn-lt w 2) in
      ap (resolve mem' w 2) there
      ∙ resolve-agree w 2 root top tree.at_top refl
      ∙ sym (ap (resolve s.mem w 2) there)

  agree-Hangs : (q j : ℕ) (m : Node) → Hangs tag s.mem q m j → Hangs tag mem' q m j
  agree-Hangs q j m h =
      let kept = agree h.parent j m h.place h.inside in
      record {
        parent = h.parent;
        place = h.place;
        inside = h.inside;
        valid = ap is_valid kept ∙ h.valid;
        leads_to = ap pte_to_addr kept ∙ h.leads_to;
      }

  IsTree-agree :
      (h' : Heap)
      → IsFramed h'
      → 0 < h'.alloc_start
      → ((q : ℕ) → IsHeld s.heap q → IsHeld h' q)
      → IsTree root tag (record { mem = mem'; heap = h' })
  IsTree-agree h' framed positive kept_held = record {
    framed = framed;
    positive = positive;
    at_top = tree.at_top;
    held = λ q m at. kept_held q (tree.held q m at);
    in_place = λ q m at.
        InPlace-old root tag tag s.mem mem' q m (λ j k pos. agree-Hangs q j k)
          (tree.in_place q m at);
    branch = λ q m j at pos lj ok.
        let kept = agree q j m at lj in
        let (leafless, child) = tree.branch q m j at pos lj (ap is_valid (sym kept) ∙ ok) in
        (ap is_leaf kept ∙ leafless, ap (λ e. tag (pte_to_addr e)) kept ∙ child);
  }

-- An entry of a table is not in a page that nobody held.
apart :
    {root : ℕ} {tag : ℕ → Option Node} {s : Space} {p : ℕ} (tree : IsTree root tag s)
    → IsFrame p
    → (IsHeld s.heap p → ⊥)
    → (q j : ℕ) (n : Node) → tag q ≡ some n
    → j < table_len
    → (slot q j < p) ⊎ (p + page_size ≤ slot q j)
apart {s = s} {p} tree f free q j n at lj =
    let g = tagged-IsFrame tree q n at in
    let ne : q ≢ p = λ e. free (subst (IsHeld s.heap) e (tree.held q n at)) in
    ground (arith, f.aligned, g.aligned, ne)

-- A memory in which somebody has written a page.
abbrev pub overwrite : ℕ → Memory → Memory → Memory
overwrite p theirs mem v = if leb p v && ltb v (p + page_size) then theirs v else mem v

-- On a heap with a page to spare, beside a tree of tables with 4 KiB leaves, each on a page of its own
-- from the heap, `allocate` hands out a page, and whatever is written in that page, the tables are
-- still such a tree and every address translates as before.
pub allocate-v2p :
    {root : ℕ} {tag : ℕ → Option Node} {s : Space} (k : ℕ) (theirs : Memory)
    → IsTree root tag s
    → IsReady (suc k) s.heap
    → (p : ℕ) × (h' : Heap) × (allocate 1 s.heap ≡ done (some p, h'))
      × IsReady k h'
      × IsTree root tag (record { mem = overwrite p theirs s.mem; heap = h' })
      × ((w : ℕ) → v2p (overwrite p theirs s.mem) root w ≡ v2p s.mem root w)
allocate-v2p {root} {tag} {s} k theirs tree ready =
    let (p, h', got, left, framed, taken, free, kept, change) = allocate-IsHeld ready tree.framed in
    let f : IsFrame p = held-IsFrame framed left.placed.positive taken in
    let agree : (q j : ℕ) (n : Node)
        → tag q ≡ some n
        → j < table_len
        → overwrite p theirs s.mem (slot q j) ≡ s.mem (slot q j) =
      λ q j n at lj. ground (arith, apart tree f free q j n at lj) in
    let mem' = overwrite p theirs s.mem in
    (
      p,
      h',
      got,
      left,
      IsTree-agree tree mem' agree h' framed left.placed.positive kept,
      v2p-agree tree mem' agree,
    )
