-- ===== src/Sv39/Way.antt =====
-- The way of `map` of src/mm/paging/sv39/map.rs down to the last table, for a 4 KiB leaf.
use vesper.Prelude.{
  ℕ, suc, ◌≡◌, refl, sym, ap, ◌∙◌, true, false, Option, some, arith, ◌==◌, ne→==, inl, inr, ◌⊎◌,
  done,
}
use vesper.PageFrame.{Memory}
use vesper.PageFrame.Ready.{IsReady}
use vesper.Sv39.{
  Space, is_valid, is_leaf, vpn, entry_addr, pte_to_addr, next_entry, descend, levels, resolve, v2p,
}
use vesper.Sv39.Tree.{Node, top, mid, low, slot, IsTree, IsFrame, vpn-lt, entry_addr-slot}
use vesper.Sv39.Link.{resolve-branch, tagged-IsFrame}
use vesper.Sv39.Grown.{Grown, Grown-trans}
use vesper.Sv39.Ensure.{CanPay, Ensured, ensure_table-Ensured}

-- The tables of an address, where they are there.
abbrev pub mid_table : ℕ → Memory → ℕ → ℕ
mid_table root mem vaddr = pte_to_addr (mem (slot root (vpn vaddr 2)))

abbrev pub low_table : ℕ → Memory → ℕ → ℕ
low_table root mem vaddr = pte_to_addr (mem (slot (mid_table root mem vaddr) (vpn vaddr 1)))

pub record HasTables (root : ℕ) (mem : Memory) (vaddr : ℕ) : Type 0 where
  pub mid_valid : is_valid (mem (slot root (vpn vaddr 2))) ≡ true
  pub low_valid : is_valid (mem (slot (mid_table root mem vaddr) (vpn vaddr 1))) ≡ true

next_entry-slot :
    (vaddr i v : ℕ) (s : Space)
    → IsFrame (pte_to_addr (s.mem v))
    → next_entry vaddr i v s ≡ done (slot (pte_to_addr (s.mem v)) (vpn vaddr i), s)
next_entry-slot vaddr i v s f =
    let table = pte_to_addr (s.mem v) in
    let there : entry_addr table (vpn vaddr i) ≡ slot table (vpn vaddr i) =
      entry_addr-slot (vpn vaddr i) f (vpn-lt vaddr i) in
    let at_a_page : (slot table (vpn vaddr i) == 0) ≡ false =
      ne→== _ _ (omega (arith, f.positive)) in
    rw (there, at_a_page) refl

module _ {root : ℕ} {tag : ℕ → Option Node} {s : Space} (tree : IsTree root tag s) (vaddr : ℕ) where
  abbrev top_entry : ℕ
  top_entry = slot root (vpn vaddr 2)

  abbrev mid_entry : ℕ
  mid_entry = slot (mid_table root s.mem vaddr) (vpn vaddr 1)

  pub mid_table-tag :
      is_valid (s.mem top_entry) ≡ true
      → (is_leaf (s.mem top_entry) ≡ false)
        × (tag (mid_table root s.mem vaddr) ≡ some (mid (vpn vaddr 2)))
  mid_table-tag ok =
      tree.branch root top (vpn vaddr 2) tree.at_top (omega arith) (vpn-lt vaddr 2) ok

  pub low_table-tag :
      HasTables root s.mem vaddr
      → (is_leaf (s.mem mid_entry) ≡ false)
        × (tag (low_table root s.mem vaddr) ≡ some (low (vpn vaddr 2) (vpn vaddr 1)))
  low_table-tag has =
      tree.branch (mid_table root s.mem vaddr) (mid (vpn vaddr 2)) (vpn vaddr 1)
        (mid_table-tag has.mid_valid).1 (omega arith) (vpn-lt vaddr 1) has.low_valid

  -- The walk of an address whose tables are there comes to the last of them.
  pub v2p-HasTables :
      HasTables root s.mem vaddr
      → v2p s.mem root vaddr
        ≡ resolve s.mem vaddr 0 (slot (low_table root s.mem vaddr) (vpn vaddr 0))
  unfolding v2p
  v2p-HasTables has =
      let (leafless, at) = mid_table-tag has.mid_valid in
      let (leafless', at') = low_table-tag has in
      ap (resolve s.mem vaddr 2)
        (entry_addr-slot (vpn vaddr 2) (tagged-IsFrame tree root top tree.at_top) (vpn-lt vaddr 2))
      ∙ resolve-branch s.mem vaddr 1 top_entry (mid_table root s.mem vaddr)
          (tagged-IsFrame tree (mid_table root s.mem vaddr) (mid (vpn vaddr 2)) at) has.mid_valid
          leafless refl
      ∙ resolve-branch s.mem vaddr 0 mid_entry (low_table root s.mem vaddr)
          (tagged-IsFrame tree (low_table root s.mem vaddr) (low (vpn vaddr 2) (vpn vaddr 1)) at')
          has.low_valid leafless' refl

  module _ {tag' : ℕ → Option Node} {s' : Space} (grown : Grown root tag tag' s s') where
    pub mid_table-Grown :
        is_valid (s.mem top_entry) ≡ true → mid_table root s'.mem vaddr ≡ mid_table root s.mem vaddr
    mid_table-Grown ok =
        ap pte_to_addr (grown.stays root (vpn vaddr 2) top tree.at_top (vpn-lt vaddr 2) ok)

    -- Tables that are there stay.
    pub HasTables-Grown : HasTables root s.mem vaddr → HasTables root s'.mem vaddr
    HasTables-Grown has =
        let (leafless, at) = mid_table-tag has.mid_valid in
        record {
          mid_valid =
              ap is_valid
                (grown.stays root (vpn vaddr 2) top tree.at_top (vpn-lt vaddr 2) has.mid_valid)
              ∙ has.mid_valid;
          low_valid =
              ap (λ t. is_valid (s'.mem (slot t (vpn vaddr 1)))) (mid_table-Grown has.mid_valid)
              ∙ ap is_valid (
                  grown.stays (mid_table root s.mem vaddr) (vpn vaddr 1) (mid (vpn vaddr 2)) at
                    (vpn-lt vaddr 1) has.low_valid)
              ∙ has.low_valid;
        }

-- What the way down leaves.
pub record Way (root : ℕ) (tag : ℕ → Option Node) (s : Space) (vaddr k : ℕ) : Type 0 where
  pub space : Space
  pub tags : ℕ → Option Node
  pub returns :
      descend vaddr (levels 0) (entry_addr root (vpn vaddr 2)) s
      ≡ done (slot (low_table root space.mem vaddr) (vpn vaddr 0), space)
  pub grown : Grown root tag tags s space
  pub ready : IsReady k space.heap
  pub tables : HasTables root space.mem vaddr

-- Pages enough for the tables of an address: none where they are there, and two where they may not be.
abbrev pub CanMap : ℕ → ℕ → ℕ → Space → Type 0
CanMap root vaddr k s =
    (HasTables root s.mem vaddr × IsReady k s.heap) ⊎ IsReady (suc (suc k)) s.heap

module _ {root : ℕ} {tag : ℕ → Option Node} {s : Space} (tree : IsTree root tag s)
    (vaddr k : ℕ) where
  -- The two steps, one after another.
  steps-Way :
      (j : ℕ) (e : Ensured root tag s root (vpn vaddr 2) j)
      → CanPay k
          (is_valid (e.space.mem (slot (mid_table root e.space.mem vaddr) (vpn vaddr 1))))
          e.space.heap
      → Way root tag s vaddr k
  unfolding descend
  steps-Way j e pay =
      let t = mid_table root e.space.mem vaddr in
      let (_, at) = mid_table-tag e.grown.tree vaddr e.valid in
      let f =
        ensure_table-Ensured e.grown.tree t (vpn vaddr 1) k (mid (vpn vaddr 2)) at (omega arith)
          (vpn-lt vaddr 1) pay in
      let top_kept =
        f.grown.stays root (vpn vaddr 2) top e.grown.tree.at_top (vpn-lt vaddr 2) e.valid in
      let same : mid_table root f.space.mem vaddr ≡ t = ap pte_to_addr top_kept in
      let has : HasTables root f.space.mem vaddr = record {
        mid_valid = ap is_valid top_kept ∙ e.valid;
        low_valid = ap (λ t. is_valid (f.space.mem (slot t (vpn vaddr 1)))) same ∙ f.valid;
      } in
      let first =
        entry_addr-slot (vpn vaddr 2) (tagged-IsFrame tree root top tree.at_top) (vpn-lt vaddr 2) in
      let second =
        next_entry-slot vaddr 1 (slot root (vpn vaddr 2)) e.space
          (tagged-IsFrame e.grown.tree t (mid (vpn vaddr 2)) at) in
      let low_same : pte_to_addr (f.space.mem (slot t (vpn vaddr 1)))
          ≡ low_table root f.space.mem vaddr =
        ap (λ t. pte_to_addr (f.space.mem (slot t (vpn vaddr 1)))) (sym same) in
      let (_, at_low) = low_table-tag f.grown.tree vaddr has in
      let third = next_entry-slot vaddr 0 (slot t (vpn vaddr 1)) f.space (
        rw low_same (
          tagged-IsFrame f.grown.tree (low_table root f.space.mem vaddr)
            (low (vpn vaddr 2) (vpn vaddr 1)) at_low)) in
      record {
        space = f.space;
        tags = f.tags;
        returns =
            rw (first, e.returns)
              (rw second (
                rw f.returns (rw third (ap (λ t. done (slot t (vpn vaddr 0), f.space)) low_same))));
        grown = Grown-trans e.grown f.grown;
        ready = f.ready;
        tables = has;
      }

  -- With the pages for it the way down does not fail, and the tables of the address are there then.
  pub descend-Way : CanMap root vaddr k s → Way root tag s vaddr k
  descend-Way pay = elim pay [
    | inl (has, ready) ↦
        let e =
          ensure_table-Ensured tree root (vpn vaddr 2) k top tree.at_top (omega arith)
            (vpn-lt vaddr 2) (inl (has.mid_valid, ready)) in
        steps-Way k e (inl ((HasTables-Grown tree vaddr e.grown has).low_valid, e.ready))
    | inr ready ↦
        let e =
          ensure_table-Ensured tree root (vpn vaddr 2) (suc k) top tree.at_top (omega arith)
            (vpn-lt vaddr 2) (inr ready) in
        steps-Way (suc k) e (inr e.ready)
  ]
