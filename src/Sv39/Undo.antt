-- ===== src/Sv39/Undo.antt =====
-- `unmap` of src/mm/paging/sv39/map.rs undoes `map`.
use mathlib.Core.Bool.{false≢true}
use vesper.Prelude.{
  ◌≢◌, ◌^◌, bit_and, List, [], ◌∷◌, ℕ, zero, suc, ◌+◌, ◌*◌, ◌<◌, ◌≤◌, ◌≡◌, refl, sym, ap, ◌∙◌,
  false, Option, none, some, arith, length, Option-cases, inl, inr, done, ◌>>=◌, get_or,
}
use vesper.PageFrame.{PageDesc, page_size}
use vesper.PageFrame.Ready.{IsReady}
use vesper.Sv39.PteFlags
use vesper.Sv39.{
  map, Space, table_len, is_valid, vpn, entry_addr, unmap_root_entry, unmap_from, unmap, v2p,
}
use vesper.Sv39.Tree.{
  page, Node, top, mid, low, depth, slot, Hangs, IsTree, vpn-lt, entry_addr-slot,
}
use vesper.Sv39.Link.{tagged-IsFrame, resolve-invalid}
use vesper.Sv39.Grown.{Gain}
use vesper.Sv39.Refine.{map-Mapped}
use vesper.Sv39.Shrink.{Fate, Shrunk-refl, Shrunk-trans}
use vesper.Sv39.Unmap.{Cleared, one_more, unmap_root_entry-Emptied}

unmap_from-Cleared :
    {root : ℕ} (n lv2 : ℕ) {tag : ℕ → Option Node} {s : Space}
    → IsTree root tag s
    → lv2 + n ≤ table_len
    → ((j : ℕ) → j < lv2 → is_valid (s.mem (slot root j)) ≡ false)
    → Cleared 2 root tag s root (lv2 + n) (unmap_from root lv2 n s)
unfolding unmap_from
unmap_from-Cleared zero lv2 {tag} {s} tree le before = record {
  space = s;
  tags = tag;
  returns = refl;
  shrunk = Shrunk-refl tree;
  bad = λ j lt. before j (omega (arith, lt));
}
unmap_from-Cleared {root} (suc n) lv2 {tag} {s} tree le before =
    let e = unmap_root_entry-Emptied tree lv2 (omega (arith, le)) in
    let there =
      entry_addr-slot lv2 (tagged-IsFrame tree root top tree.at_top) (omega (arith, le)) in
    let r = unmap_from-Cleared n (lv2 + 1) e.shrunk.tree (omega (arith, le)) (
      one_more (λ j. is_valid (e.space.mem (slot root j)) ≡ false) lv2
        (λ j lt. e.shrunk.quiet (slot root j) (before j lt)) e.bad) in
    record {
      space = r.space;
      tags = r.tags;
      returns =
          ap (λ v. unmap_root_entry v s >>= unmap_from root (lv2 + 1) n) there
          ∙ ap (λ o. o >>= unmap_from root (lv2 + 1) n) e.returns
          ∙ r.returns;
      shrunk = Shrunk-trans e.shrunk r.shrunk;
      bad = λ j lt. r.bad j (omega (arith, lt));
    }

-- Under a root without valid entries there is no other table.
only_root_left :
    {root : ℕ} {tag : ℕ → Option Node} {s : Space} (tree : IsTree root tag s)
    → ((j : ℕ) → j < table_len → is_valid (s.mem (slot root j)) ≡ false)
    → (q : ℕ) (n : Node) → tag q ≡ some n
    → n ≡ top
only_root_left tree bad q top at = refl
only_root_left {root} {tag} {s} tree bad q (mid i) at = absurd (no_mid (tree.in_place q (mid i) at))
  where
    no_mid : Hangs tag s.mem q top i → ⊥
    no_mid h = false≢true (
        sym (bad i h.inside)
        ∙ ap (λ t. is_valid (s.mem (slot t i))) (sym (tree.in_place h.parent top h.place))
        ∙ h.valid)
only_root_left {root} {tag} {s} tree bad q (low i j) at =
    let h = tree.in_place q (low i j) at in
    let g = tree.in_place h.parent (mid i) h.place in
    absurd (
      false≢true (
        sym (bad i g.inside)
        ∙ ap (λ t. is_valid (s.mem (slot t i))) (sym (tree.in_place g.parent top g.place))
        ∙ g.valid))

-- A descriptor behind `unmap`, by the place of its page in the tree.
abbrev pub desc_after : Option Node → ℕ → ℕ
desc_after none d = d
desc_after (some top) d = d
desc_after (some (mid i)) d = 0
desc_after (some (low i j)) d = 0

desc_after-under : (n : Node) (d : ℕ) → depth n < 2 → desc_after (some n) d ≡ 0
desc_after-under top d lt = absurd (omega arith)
desc_after-under (mid i) d lt = refl
desc_after-under (low i j) d lt = refl

desc_after-Fate :
    (was is : Option Node) (d d' : ℕ)
    → ((n : Node) → is ≡ some n → n ≡ top)
    → Fate was is d d'
    → d' ≡ desc_after was d
desc_after-Fate was is d d' only fate = elim fate [
  | inr (n, at, under, gone, free) ↦
      free ∙ sym (desc_after-under n d under) ∙ ap (λ o. desc_after o d) (sym at)
  | inl (same, kept) ↦ elim (Option-cases was) [
    | inl nothing ↦ kept ∙ ap (λ o. desc_after o d) (sym nothing)
    | inr (n, at) ↦ kept ∙ ap (λ o. desc_after o d) (ap some (sym (only n (same ∙ at))) ∙ sym at)
  ]
]

-- `unmap` of a tree of tables with 4 KiB leaves, each on a page of its own from the heap, returns,
-- without a panic of the allocator. No address translates then. The page of each table is free on the
-- heap, but for that of the root, and the descriptors of all other pages are as they were.
pub unmap-frees :
    {root : ℕ} {tag : ℕ → Option Node} {s : Space}
    → IsTree root tag s
    → (s' : Space) × (unmap root s ≡ done s')
      × ((w : ℕ) → v2p s'.mem root w ≡ done none)
      × (s'.heap.alloc_start ≡ s.heap.alloc_start)
      × (length s'.heap.table ≡ length s.heap.table)
      × ((i : ℕ)
          → i < length s.heap.table
          → get_or s'.heap.table i 0
            ≡ desc_after (tag (s.heap.alloc_start + i * page_size)) (get_or s.heap.table i 0))
unfolding unmap v2p
unmap-frees {root} {tag} {s} tree =
    let r = unmap_from-Cleared table_len 0 tree (omega arith) (λ j lt. absurd (omega arith)) in
    let t = r.shrunk.tree in
    let bad : (j : ℕ) → j < table_len → is_valid (r.space.mem (slot root j)) ≡ false = r.bad in
    (
      r.space,
      r.returns,
      λ w. resolve-invalid r.space.mem w 2 (entry_addr root (vpn w 2)) (
          ap (λ a. is_valid (r.space.mem a))
            (entry_addr-slot (vpn w 2) (tagged-IsFrame t root top t.at_top) (vpn-lt w 2))
          ∙ bad (vpn w 2) (vpn-lt w 2)),
      r.shrunk.same_start,
      r.shrunk.same_length,
      λ i lt. desc_after-Fate _ _ _ _ (only_root_left t bad _) (r.shrunk.fates i lt),
    )

list_ext :
    (xs ys : List PageDesc)
    → length xs ≡ length ys
    → ((i : ℕ) → i < length xs → get_or xs i 0 ≡ get_or ys i 0)
    → xs ≡ ys
list_ext [] [] e same = refl
list_ext [] (y ∷ ys) e same = absurd (omega (arith, e))
list_ext (x ∷ xs) [] e same = absurd (omega (arith, e))
list_ext (x ∷ xs) (y ∷ ys) e same =
    let head : x ≡ y = same 0 (omega arith) in
    let rest : xs ≡ ys = list_ext xs ys (omega (arith, e)) (λ i lt. same (suc i) (omega arith)) in
    ap (λ z. z ∷ xs) head ∙ ap (λ zs. y ∷ zs) rest

-- A table that `map` takes is one that `unmap` frees.
desc_after-Gain :
    (was is : Option Node) (d d' : ℕ) → Gain was is d d' → desc_after is d' ≡ desc_after was d
desc_after-Gain was is d d' gain = elim gain [
  | inl (same, kept) ↦ ap (λ o. desc_after o d') same ∙ ap (desc_after was) kept
  | inr (n, free, new, under, zero_there) ↦
      ap (λ o. desc_after o d') new
      ∙ desc_after-under n d' under
      ∙ sym zero_there
      ∙ ap (λ o. desc_after o d) (sym free)
]

-- `unmap` after `map` of a 4 KiB page, with flags of ten bits that have a permission, on a tree of
-- tables with 4 KiB leaves, each on a page of its own from the heap, with two pages to spare, leaves
-- the descriptor table that `unmap` without the `map` leaves: every table that `map` took is given
-- back.
pub unmap-map :
    {root : ℕ} {tag : ℕ → Option Node} {s : Space} (vaddr paddr bits k : ℕ)
    → IsTree root tag s
    → bits < 2 ^ 10
    → bit_and bits PteFlags.rwx ≢ 0
    → IsReady (suc (suc k)) s.heap
    → (s₁ : Space) × (s₂ : Space) × (s₃ : Space) × (map root vaddr paddr bits 0 s ≡ done s₁)
      × (unmap root s₁ ≡ done s₂)
      × (unmap root s ≡ done s₃)
      × (s₂.heap.table ≡ s₃.heap.table)
unmap-map {root} {tag} {s} vaddr paddr bits k tree small some_rwx ready =
    let m = map-Mapped tree vaddr paddr bits k small some_rwx (inr ready) in
    let (s₂, undone, _, _, same_length, descs) = unmap-frees m.tree in
    let (s₃, undone', _, _, same_length', descs') = unmap-frees tree in
    (
      m.space,
      s₂,
      s₃,
      m.returns,
      undone,
      undone',
      list_ext s₂.heap.table s₃.heap.table (same_length ∙ m.same_length ∙ sym same_length') (λ i lt.
          descs i (omega (arith, lt, same_length))
          ∙ ap (λ a. desc_after (m.tags (a + i * page_size)) (get_or m.space.heap.table i 0))
              m.same_start
          ∙ desc_after-Gain (tag (page s i)) (m.tags (page s i)) (get_or s.heap.table i 0)
              (get_or m.space.heap.table i 0) (m.gains i)
          ∙ sym (descs' i (omega (arith, lt, same_length, m.same_length)))),
    )
