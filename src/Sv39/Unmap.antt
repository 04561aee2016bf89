-- ===== src/Sv39/Unmap.antt =====
-- `unmap` of src/mm/paging/sv39/map.rs on a tree of tables.
use mathlib.Core.Bool.{false≢true}
use mathlib.Core.Path.{subst}
use vesper.Prelude.{
  ℕ, zero, suc, ◌+◌, ◌<◌, ◌≤◌, ◌≡◌, refl, sym, ap, ◌∙◌, true, false, Option, some, arith, ne→==,
  Bool-cases, inl, inr, Outcome, done, ◌>>=◌, ℕ_discrete,
}
use vesper.PageFrame.{Heap, Memory, deallocate}
use vesper.PageFrame.Release.{deallocate-IsHeld}
use vesper.Sv39.{
  Space, table_len, is_valid, is_leaf, is_branch, pte_to_addr, points, deallocate_addr, unmap_entry,
  unmap_table, unmap_root_entry, write_word,
}
use vesper.Sv39.Tree.{Node, top, mid, low, depth, slot, Hangs, IsTree, IsFrame, entry_addr-slot}
use vesper.Sv39.Link.{tagged-IsFrame}
use vesper.Sv39.Walk.{write_word-same}
use vesper.Sv39.Drop.{only_place, tag_drop, dropped}
use vesper.Sv39.Shrink.{Shrunk, Shrunk-refl, Shrunk-trans, Shrunk-up, Shrunk-dropped}

points-branch :
    (mem : Memory) (v : ℕ) → is_valid (mem v) ≡ true → is_leaf (mem v) ≡ false → points mem v ≡ true
unfolding is_branch
points-branch mem v ok leafless = rw (ok, leafless) refl

points-invalid : (mem : Memory) (v : ℕ) → is_valid (mem v) ≡ false → points mem v ≡ false
points-invalid mem v bad = rw bad refl

deallocate_addr-frame : (c : ℕ) (h : Heap) → IsFrame c → deallocate_addr c h ≡ deallocate c h
deallocate_addr-frame c h f = rw (ne→== c 0 (omega (arith, f.positive))) refl

-- What a call leaves: fewer tables, and an entry that is not valid.
pub record Emptied (d root : ℕ) (tag : ℕ → Option Node) (s : Space) (v : ℕ) (call : Outcome Space)
    : Type 0 where
  pub space : Space
  pub tags : ℕ → Option Node
  pub returns : call ≡ done space
  pub shrunk : Shrunk d root tag tags s space
  pub bad : is_valid (space.mem v) ≡ false

passed :
    {d root : ℕ} {tag : ℕ → Option Node} {s : Space} {v : ℕ} {call : Outcome Space}
    → IsTree root tag s
    → is_valid (s.mem v) ≡ false
    → call ≡ done s
    → Emptied d root tag s v call
passed {tag = tag} {s = s} tree bad returns = record {
  space = s;
  tags = tag;
  returns = returns;
  shrunk = Shrunk-refl tree;
  bad = bad;
}

unmap_entry-freed :
    (v : ℕ) (s : Space) (h' : Heap)
    → points s.mem v ≡ true
    → deallocate_addr (pte_to_addr (s.mem v)) s.heap ≡ done h'
    → unmap_entry v s ≡ done (record { mem = write_word v 0 s.mem; heap = h' })
unfolding unmap_entry
unmap_entry-freed v s h' yes_points freed =
    rw yes_points
      (ap (λ o. o >>= λ h. done (record { mem = write_word v 0 s.mem; heap = h })) freed)

unmap_entry-passed : (v : ℕ) (s : Space) → points s.mem v ≡ false → unmap_entry v s ≡ done s
unfolding unmap_entry
unmap_entry-passed v s no_points = rw no_points refl

module _ {root : ℕ} {tag : ℕ → Option Node} {s : Space} (tree : IsTree root tag s) where
  unmap_entry-Emptied :
      (m i j : ℕ)
      → tag m ≡ some (mid i)
      → j < table_len
      → Emptied 1 root tag s (slot m j) (unmap_entry (slot m j) s)
  unfolding is_valid
  unmap_entry-Emptied m i j at lj = elim (Bool-cases (is_valid (s.mem (slot m j)))) [
    | inr bad ↦
        passed tree bad (unmap_entry-passed (slot m j) s (points-invalid s.mem (slot m j) bad))
    | inl ok ↦
        let c = pte_to_addr (s.mem (slot m j)) in
        let (leafless, child) = tree.branch m (mid i) j at (omega arith) lj ok in
        let (h', freed, released) = deallocate-IsHeld (tree.held c (low i j) child) in
        let childless : (q k : ℕ) → 0 < depth (low i j) → Hangs tag s.mem q (low i j) k → ⊥ =
          λ q k pos h. omega (arith, pos) in
        record {
          space = dropped tree m j (mid i) at (omega arith) lj ok childless h' released;
          tags = tag_drop tag c;
          returns =
              unmap_entry-freed (slot m j) s h' (points-branch s.mem (slot m j) ok leafless)
                (deallocate_addr-frame c s.heap (tagged-IsFrame tree c (low i j) child) ∙ freed);
          shrunk =
              Shrunk-dropped tree m j (mid i) at (omega arith) lj ok childless h' released 1
                (omega arith) (omega arith);
          bad = ap is_valid (write_word-same s.mem (slot m j) 0);
        }
  ]

-- What a loop leaves: the entries before `stop` of the table are not valid.
pub record Cleared (d root : ℕ) (tag : ℕ → Option Node) (s : Space) (m stop : ℕ)
    (call : Outcome Space) : Type 0 where
  pub space : Space
  pub tags : ℕ → Option Node
  pub returns : call ≡ done space
  pub shrunk : Shrunk d root tag tags s space
  pub bad : (j : ℕ) → j < stop → is_valid (space.mem (slot m j)) ≡ false

pub one_more : (P : ℕ → Type 0) (k : ℕ) → ((j : ℕ) → j < k → P j) → P k → (j : ℕ) → j < k + 1 → P j
one_more P k before here j lt = elim (ℕ_discrete j k) [
  | yes e ↦ subst P (sym e) here
  | no ne ↦ before j (omega (arith, ne))
]

unmap_table-Cleared :
    {root : ℕ} (m i n lv1 : ℕ) {tag : ℕ → Option Node} {s : Space}
    → IsTree root tag s
    → tag m ≡ some (mid i)
    → lv1 + n ≤ table_len
    → ((j : ℕ) → j < lv1 → is_valid (s.mem (slot m j)) ≡ false)
    → Cleared 1 root tag s m (lv1 + n) (unmap_table m lv1 n s)
unfolding unmap_table
unmap_table-Cleared m i zero lv1 {tag} {s} tree at le before = record {
  space = s;
  tags = tag;
  returns = refl;
  shrunk = Shrunk-refl tree;
  bad = λ j lt. before j (omega (arith, lt));
}
unmap_table-Cleared m i (suc n) lv1 {tag} {s} tree at le before =
    let e = unmap_entry-Emptied tree m i lv1 at (omega (arith, le)) in
    let there = entry_addr-slot lv1 (tagged-IsFrame tree m (mid i) at) (omega (arith, le)) in
    let r =
      unmap_table-Cleared m i n (lv1 + 1) e.shrunk.tree (e.shrunk.keeps m (mid i) at (omega arith))
        (omega (arith, le))
        (one_more (λ j. is_valid (e.space.mem (slot m j)) ≡ false) lv1
          (λ j lt. e.shrunk.quiet (slot m j) (before j lt)) e.bad) in
    record {
      space = r.space;
      tags = r.tags;
      returns =
          ap (λ v. unmap_entry v s >>= unmap_table m (lv1 + 1) n) there
          ∙ ap (λ o. o >>= unmap_table m (lv1 + 1) n) e.returns
          ∙ r.returns;
      shrunk = Shrunk-trans e.shrunk r.shrunk;
      bad = λ j lt. r.bad j (omega (arith, lt));
    }

unmap_root_entry-freed :
    (v : ℕ) (s s' : Space) (h' : Heap)
    → points s.mem v ≡ true
    → unmap_table (pte_to_addr (s.mem v)) 0 table_len s ≡ done s'
    → deallocate_addr (pte_to_addr (s.mem v)) s'.heap ≡ done h'
    → unmap_root_entry v s ≡ done (record { mem = write_word v 0 s'.mem; heap = h' })
unfolding unmap_root_entry
unmap_root_entry-freed v s s' h' yes_points cleared freed =
    let last : Space → Outcome Space = λ t. deallocate_addr (pte_to_addr (s.mem v)) t.heap >>= λ h.
    done (record { mem = write_word v 0 t.mem; heap = h }) in
    rw yes_points (
      ap (λ o. o >>= last) cleared
      ∙ ap (λ o. o >>= λ h. done (record { mem = write_word v 0 s'.mem; heap = h })) freed)

unmap_root_entry-passed :
    (v : ℕ) (s : Space) → points s.mem v ≡ false → unmap_root_entry v s ≡ done s
unfolding unmap_root_entry
unmap_root_entry-passed v s no_points = rw no_points refl

-- Behind a table whose entries are all invalid there hangs none.
no_child :
    {root : ℕ} {tag : ℕ → Option Node} {s : Space} (tree : IsTree root tag s) (m i : ℕ)
    → tag m ≡ some (mid i)
    → ((j : ℕ) → j < table_len → is_valid (s.mem (slot m j)) ≡ false)
    → (q j : ℕ) → Hangs tag s.mem q (mid i) j
    → ⊥
no_child {s = s} tree m i at bad q j h =
    let same = only_place tree h.parent m (mid i) h.place at in
    false≢true (sym (bad j h.inside) ∙ ap (λ t. is_valid (s.mem (slot t j))) (sym same) ∙ h.valid)

module _ {root : ℕ} {tag : ℕ → Option Node} {s : Space} (tree : IsTree root tag s) where
  pub unmap_root_entry-Emptied :
      (i : ℕ)
      → i < table_len
      → Emptied 2 root tag s (slot root i) (unmap_root_entry (slot root i) s)
  unfolding is_valid
  unmap_root_entry-Emptied i li = elim (Bool-cases (is_valid (s.mem (slot root i)))) [
    | inr bad ↦
        passed tree bad
          (unmap_root_entry-passed (slot root i) s (points-invalid s.mem (slot root i) bad))
    | inl ok ↦
        let v = slot root i in
        let c = pte_to_addr (s.mem v) in
        let (leafless, child) = tree.branch root top i tree.at_top (omega arith) li ok in
        let r =
          unmap_table-Cleared c i table_len 0 tree child (omega arith)
            (λ j lt. absurd (omega arith)) in
        let t = r.shrunk.tree in
        let same : r.space.mem v ≡ s.mem v =
          r.shrunk.upper root i top tree.at_top (omega arith) li in
        let child' = r.shrunk.keeps c (mid i) child (omega arith) in
        let d = pte_to_addr (r.space.mem v) in
        let e : d ≡ c = ap pte_to_addr same in
        let (h', freed, released) = deallocate-IsHeld (t.held d (mid i) (ap r.tags e ∙ child')) in
        let childless : (q j : ℕ) → 0 < depth (mid i) → Hangs r.tags r.space.mem q (mid i) j → ⊥ =
          λ q j pos h. no_child t c i child' (λ j lt. r.bad j (omega (arith, lt))) q j h in
        let ok' : is_valid (r.space.mem v) ≡ true = ap is_valid same ∙ ok in
        record {
          space = dropped t root i top t.at_top (omega arith) li ok' childless h' released;
          tags = tag_drop r.tags d;
          returns =
              unmap_root_entry-freed v s r.space h' (points-branch s.mem v ok leafless) r.returns (
                deallocate_addr-frame c r.space.heap (tagged-IsFrame t c (mid i) child')
                ∙ ap (λ a. deallocate a r.space.heap) (sym e)
                ∙ freed);
          shrunk = Shrunk-trans (Shrunk-up (omega arith) r.shrunk) (
              Shrunk-dropped t root i top t.at_top (omega arith) li ok' childless h' released 2
                (omega arith) (omega arith));
          bad = ap is_valid (write_word-same r.space.mem v 0);
        }
  ]
