-- ===== src/Sv39/Grown.antt =====
-- More tables, and the same translation: what the way of `map` of src/mm/paging/sv39/map.rs leaves.
use mathlib.Core.Path.{subst}
use vesper.Prelude.{
  none, ◌+◌, inr, inl, length, get_or, ◌⊎◌, ◌*◌, ℕ, ◌<◌, ◌≡◌, refl, sym, ap, ◌∙◌, true, Option,
  some,
}
use vesper.PageFrame.{page_size}
use vesper.Sv39.{Space, table_len, is_valid, v2p}
use vesper.Sv39.Tree.{page, Node, depth, slot, IsTree}

-- What becomes of a page: nothing, or it was free and is a table's below the root.
abbrev pub Gain : Option Node → Option Node → ℕ → ℕ → Type 0
Gain was is d d' =
    ((is ≡ was) × (d' ≡ d)) ⊎ ((n : Node) × (was ≡ none) × (is ≡ some n) × (depth n < 2) × (d ≡ 0))

Gain-trans : {a b c : Option Node} {x y z : ℕ} → Gain a b x y → Gain b c y z → Gain a c x z
Gain-trans f g = elim f [
  | inl (same, kept) ↦ elim g [
    | inl (same', kept') ↦ inl (same' ∙ same, kept' ∙ kept)
    | inr (n, was, is, under, free) ↦ inr (n, sym same ∙ was, is, under, sym kept ∙ free)
  ]
  | inr (n, was, is, under, free) ↦ elim g [
    | inl (same', kept') ↦ inr (n, was, same' ∙ is, under, free)
    | inr (m, was', is', under', free') ↦ inr (m, was, is', under', free)
  ]
]

-- More tables, and the same translation.
pub record Grown (root : ℕ) (tag tag' : ℕ → Option Node) (s s' : Space) : Type 0 where
  pub tree : IsTree root tag' s'
  pub extends : (q : ℕ) (m : Node) → tag q ≡ some m → tag' q ≡ some m
  pub stays :
      (q j : ℕ) (m : Node)
      → tag q ≡ some m
      → j < table_len
      → is_valid (s.mem (slot q j)) ≡ true
      → s'.mem (slot q j) ≡ s.mem (slot q j)
  pub same : (vaddr : ℕ) → v2p s'.mem root vaddr ≡ v2p s.mem root vaddr
  pub same_start : s'.heap.alloc_start ≡ s.heap.alloc_start
  pub same_length : length s'.heap.table ≡ length s.heap.table
  pub gains :
      (i : ℕ)
      → Gain (tag (page s i)) (tag' (page s i)) (get_or s.heap.table i 0) (get_or s'.heap.table i 0)

pub Grown-trans :
    {root : ℕ} {tag tag' tag'' : ℕ → Option Node} {s s' s'' : Space}
    → Grown root tag tag' s s'
    → Grown root tag' tag'' s' s''
    → Grown root tag tag'' s s''
Grown-trans {tag = tag} {tag' = tag'} {tag'' = tag''} {s = s} {s' = s'} {s'' = s''} g h = record {
  tree = h.tree;
  extends = λ q m at. h.extends q m (g.extends q m at);
  stays = λ q j m at lj ok.
      h.stays q j m (g.extends q m at) lj (ap is_valid (g.stays q j m at lj ok) ∙ ok)
      ∙ g.stays q j m at lj ok;
  same = λ vaddr. h.same vaddr ∙ g.same vaddr;
  same_start = h.same_start ∙ g.same_start;
  same_length = h.same_length ∙ g.same_length;
  gains = λ i.
      let at : page s' i ≡ page s i = ap (λ a. a + i * page_size) g.same_start in
      Gain-trans (g.gains i) (
        subst (λ q. Gain (tag' q) (tag'' q) (get_or s'.heap.table i 0) (get_or s''.heap.table i 0))
          at (h.gains i));
}

pub Grown-refl :
    {root : ℕ} {tag : ℕ → Option Node} {s : Space} → IsTree root tag s → Grown root tag tag s s
Grown-refl tree = record {
  tree = tree;
  extends = λ q m at. at;
  stays = λ q j m at lj ok. refl;
  same = λ vaddr. refl;
  same_start = refl;
  same_length = refl;
  gains = λ i. inl (refl, refl);
}
