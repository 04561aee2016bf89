-- ===== src/Sv39/Shrink.antt =====
-- Tables given back one after another, as the loops of `unmap` of src/mm/paging/sv39/map.rs do.
use mathlib.Core.Path.{subst}
use vesper.Prelude.{
  ℕ, ◌+◌, ◌*◌, ◌<◌, ◌≤◌, ◌≡◌, refl, sym, ap, ◌∙◌, true, false, Option, none, some, arith, length,
  inl, inr, ◌⊎◌, ℕ_discrete, get_or,
}
use vesper.PageFrame.{Heap, page_size}
use vesper.PageFrame.Release.{Released}
use vesper.Sv39.{Space, table_len, is_valid, pte_to_addr}
use vesper.Sv39.Tree.{depth-below_top, page, Node, depth, below, slot, Hangs, IsTree}
use vesper.Sv39.Link.{slot-depth}
use vesper.Sv39.Grow.{some-inj}
use vesper.Sv39.Walk.{write_word-same, write_word-other}
use vesper.Sv39.Drop.{
  tag_drop, tag_drop_other, tag_drop_self, tag_drop_old, dropped, IsTree-dropped,
}

-- What becomes of a page: nothing, or it was a table's below the root and is free.
abbrev pub Fate : Option Node → Option Node → ℕ → ℕ → Type 0
Fate was is d d' =
    ((is ≡ was) × (d' ≡ d)) ⊎ ((n : Node) × (was ≡ some n) × (depth n < 2) × (is ≡ none) × (d' ≡ 0))

-- Tables below a level are given back, and entries up to that level are zeroed.
pub record Shrunk (d root : ℕ) (tag tag' : ℕ → Option Node) (s s' : Space) : Type 0 where
  pub tree : IsTree root tag' s'
  pub less : (q : ℕ) (n : Node) → tag' q ≡ some n → tag q ≡ some n
  pub keeps : (q : ℕ) (n : Node) → tag q ≡ some n → d ≤ depth n → tag' q ≡ some n
  pub upper :
      (q j : ℕ) (n : Node)
      → tag q ≡ some n
      → d < depth n
      → j < table_len
      → s'.mem (slot q j) ≡ s.mem (slot q j)
  pub quiet : (v : ℕ) → is_valid (s.mem v) ≡ false → is_valid (s'.mem v) ≡ false
  pub same_start : s'.heap.alloc_start ≡ s.heap.alloc_start
  pub same_length : length s'.heap.table ≡ length s.heap.table
  pub fates :
      (i : ℕ)
      → i < length s.heap.table
      → Fate (tag (page s i)) (tag' (page s i)) (get_or s.heap.table i 0) (get_or s'.heap.table i 0)

pub Shrunk-refl :
    {d root : ℕ} {tag : ℕ → Option Node} {s : Space} → IsTree root tag s → Shrunk d root tag tag s s
Shrunk-refl tree = record {
  tree = tree;
  less = λ q n at. at;
  keeps = λ q n at le. at;
  upper = λ q j n at lt lj. refl;
  quiet = λ v bad. bad;
  same_start = refl;
  same_length = refl;
  fates = λ i lt. inl (refl, refl);
}

Fate-trans : {a b c : Option Node} {x y z : ℕ} → Fate a b x y → Fate b c y z → Fate a c x z
Fate-trans f g = elim f [
  | inl (same, kept) ↦ elim g [
    | inl (same', kept') ↦ inl (same' ∙ same, kept' ∙ kept)
    | inr (n, was, under, gone, free) ↦ inr (n, sym same ∙ was, under, gone, free)
  ]
  | inr (n, was, under, gone, free) ↦ elim g [
    | inl (same', kept') ↦ inr (n, was, under, same' ∙ gone, kept' ∙ free)
    | inr (m, was', under', gone', free') ↦ inr (n, was, under, gone', free')
  ]
]

pub Shrunk-trans :
    {d root : ℕ} {tag tag' tag'' : ℕ → Option Node} {s s' s'' : Space}
    → Shrunk d root tag tag' s s'
    → Shrunk d root tag' tag'' s' s''
    → Shrunk d root tag tag'' s s''
Shrunk-trans {d} {root} {tag} {tag'} {tag''} {s} {s'} {s''} f g = record {
  tree = g.tree;
  less = λ q n at. f.less q n (g.less q n at);
  keeps = λ q n at le. g.keeps q n (f.keeps q n at le) le;
  upper =
      λ q j n at lt lj. g.upper q j n (f.keeps q n at (omega arith)) lt lj ∙ f.upper q j n at lt lj;
  quiet = λ v bad. g.quiet v (f.quiet v bad);
  same_start = g.same_start ∙ f.same_start;
  same_length = g.same_length ∙ f.same_length;
  fates = λ i lt.
      let same : page s' i ≡ page s i = ap (λ a. a + i * page_size) f.same_start in
      Fate-trans (f.fates i lt) (
        subst (λ q. Fate (tag' q) (tag'' q) (get_or s'.heap.table i 0) (get_or s''.heap.table i 0))
          same (g.fates i (omega (arith, f.same_length))));
}

-- Giving back more.
pub Shrunk-up :
    {d e root : ℕ} {tag tag' : ℕ → Option Node} {s s' : Space}
    → d ≤ e
    → Shrunk d root tag tag' s s'
    → Shrunk e root tag tag' s s'
Shrunk-up le f = record {
  tree = f.tree;
  less = f.less;
  keeps = λ q n at le'. f.keeps q n at (omega arith);
  upper = λ q j n at lt lj. f.upper q j n at (omega arith) lj;
  quiet = f.quiet;
  same_start = f.same_start;
  same_length = f.same_length;
  fates = f.fates;
}

module _ {root : ℕ} {tag : ℕ → Option Node} {s : Space} (tree : IsTree root tag s) (p i : ℕ)
    (n : Node) (at : tag p ≡ some n) (inner : 0 < depth n) (place : i < table_len)
    (valid : is_valid (s.mem (slot p i)) ≡ true)
    (childless : (q j : ℕ) → 0 < depth (below n i) → Hangs tag s.mem q (below n i) j → ⊥)
    (h' : Heap) (released : Released s.heap h' (pte_to_addr (s.mem (slot p i)))) where
  abbrev c : ℕ
  c = pte_to_addr (s.mem (slot p i))

  c_tag : tag c ≡ some (below n i)
  c_tag = (tree.branch p n i at inner place valid).1

  abbrev s' : Space
  s' = dropped tree p i n at inner place valid childless h' released

  quiet_drop : (v : ℕ) → is_valid (s.mem v) ≡ false → is_valid (s'.mem v) ≡ false
  unfolding is_valid
  quiet_drop v bad = elim (ℕ_discrete v (slot p i)) [
    | yes e ↦ ap is_valid (ap s'.mem e ∙ write_word-same s.mem (slot p i) 0)
    | no ne ↦ ap is_valid (write_word-other s.mem (slot p i) 0 v ne) ∙ bad
  ]

  dropped-Fate :
      (j : ℕ)
      → j < length s.heap.table
      → Fate
          (tag (page s j))
          (tag_drop tag c (page s j))
          (get_or s.heap.table j 0)
          (get_or h'.table j 0)
  dropped-Fate j lt = elim (ℕ_discrete (page s j) c) [
    | yes e ↦ inr (
      below n i,
      ap tag e ∙ c_tag,
      depth-below_top n i inner,
      ap (tag_drop tag c) e ∙ tag_drop_self tag c,
      released.free j lt (sym e),
    )
    | no ne ↦ inl (tag_drop_other tag c (page s j) ne, released.others j (λ e. ne (sym e)))
  ]

  pub Shrunk-dropped :
      (d : ℕ) → depth (below n i) < d → depth n ≤ d → Shrunk d root tag (tag_drop tag c) s s'
  Shrunk-dropped d under le = record {
    tree = IsTree-dropped tree p i n at inner place valid childless h' released;
    less = λ q m at_q. (tag_drop_old tag c q m at_q).1;
    keeps = λ q m at_q le'.
        tag_drop_other tag c q
          (λ e. omega (arith, ap depth (some-inj (sym at_q ∙ ap tag e ∙ c_tag))))
        ∙ at_q;
    upper = λ q j m at_q lt lj.
        write_word-other s.mem (slot p i) 0 (slot q j)
          (slot-depth tree p q i j n m at at_q place lj (λ e. omega (arith, e)));
    quiet = quiet_drop;
    same_start = released.same_start;
    same_length = released.same_length;
    fates = dropped-Fate;
  }
