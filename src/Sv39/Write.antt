-- ===== src/Sv39/Write.antt =====
-- The leaf that `map` of src/mm/paging/sv39/map.rs writes at level 0: what it changes of the tables and of the walk.
use mathlib.Core.Path.{subst}
use vesper.Prelude.{
  ℕ, zero, suc, ◌+◌, ◌*◌, ◌/◌, ◌%◌, ◌^◌, ◌<◌, ◌≡◌, ◌≢◌, refl, sym, ap, ◌∙◌, true, Option, some,
  arith, Bool-cases, inl, inr, done,
}
use vesper.Prelude.Masks.{bit_and-mask}
use vesper.Sv39.{
  Space, table_len, is_valid, is_leaf, vpn, pte_to_addr, resolve, v2p, write_word, leaf_addr,
}
use vesper.Sv39.Tree.{
  Node, top, mid, low, depth, below, slot, Hangs, IsTree, vpn-lt, entry_addr-slot, slot-inj,
}
use vesper.Sv39.Link.{
  resolve-branch, resolve-invalid, resolve-same, tagged-IsFrame, slot-depth, depth-below,
}
use vesper.Sv39.Grow.{InPlace-old}
use vesper.Sv39.Walk.{write_word-other, resolve-target}
use vesper.Sv39.Way.{mid_table, low_table, HasTables, mid_table-tag, low_table-tag, v2p-HasTables}

-- The number of a page among those of 39 bits.
abbrev pub page_of : ℕ → ℕ
page_of vaddr = vaddr / 2 ^ 12 % 2 ^ 27

vpn-mod : (vaddr i : ℕ) → vpn vaddr i ≡ vaddr / 2 ^ (12 + 9 * i) % 512
vpn-mod vaddr i = bit_and-mask 9 (vaddr / 2 ^ (12 + 9 * i))

page_of-vpn :
    (a b : ℕ) → vpn a 0 ≡ vpn b 0 → vpn a 1 ≡ vpn b 1 → vpn a 2 ≡ vpn b 2 → page_of a ≡ page_of b
page_of-vpn a b e f g =
    omega
      (arith, e, f, g, vpn-mod a 0, vpn-mod a 1, vpn-mod a 2, vpn-mod b 0, vpn-mod b 1, vpn-mod b 2)

vpn-page_of :
    (a b : ℕ)
    → page_of a ≡ page_of b
    → (vpn a 0 ≡ vpn b 0) × (vpn a 1 ≡ vpn b 1) × (vpn a 2 ≡ vpn b 2)
vpn-page_of a b e = (
  omega (arith, e, vpn-mod a 0, vpn-mod b 0),
  omega (arith, e, vpn-mod a 1, vpn-mod b 1),
  omega (arith, e, vpn-mod a 2, vpn-mod b 2),
)

-- A table stands on the way of an address.
OnWay : ℕ → Node → Type 0
OnWay vaddr top = vaddr ≡ vaddr
OnWay vaddr (mid i) = i ≡ vpn vaddr 2
OnWay vaddr (low i j) = (i ≡ vpn vaddr 2) × (j ≡ vpn vaddr 1)

OnWay-below :
    (vaddr k : ℕ) (m : Node)
    → depth m ≡ suc k
    → OnWay vaddr m
    → OnWay vaddr (below m (vpn vaddr (suc k)))
unfolding OnWay
OnWay-below vaddr k top e w = let two : suc k ≡ 2 = omega arith in ap (vpn vaddr) two
OnWay-below vaddr k (mid i) e w = let one : suc k ≡ 1 = omega arith in (w, ap (vpn vaddr) one)
OnWay-below vaddr k (low i j) e w = absurd (omega arith)

module _ {root : ℕ} {tag : ℕ → Option Node} {s : Space} (tree : IsTree root tag s) (vaddr e : ℕ)
    (has : HasTables root s.mem vaddr) (ok : is_valid e ≡ true) (final : is_leaf e ≡ true) where
  abbrev target : ℕ
  target = slot (low_table root s.mem vaddr) (vpn vaddr 0)

  abbrev pub written : Space
  written = record s { mem = write_word target e s.mem }

  low_tag : tag (low_table root s.mem vaddr) ≡ some (low (vpn vaddr 2) (vpn vaddr 1))
  low_tag = (low_table-tag tree vaddr has).1

  -- The entries of the tables above are as they were.
  inner_kept :
      (q j : ℕ) (m : Node)
      → tag q ≡ some m
      → 0 < depth m
      → j < table_len
      → written.mem (slot q j) ≡ s.mem (slot q j)
  inner_kept q j m at inner lj = write_word-other s.mem target e (slot q j) (
      slot-depth tree (low_table root s.mem vaddr) q (vpn vaddr 0) j
        (low (vpn vaddr 2) (vpn vaddr 1)) m low_tag at (vpn-lt vaddr 0) lj (λ e. omega arith))

  kept-Hangs :
      (q j : ℕ) (m : Node) → 0 < depth m → Hangs tag s.mem q m j → Hangs tag written.mem q m j
  kept-Hangs q j m inner h =
      let kept = inner_kept h.parent j m h.place inner h.inside in
      record {
        parent = h.parent;
        place = h.place;
        inside = h.inside;
        valid = ap is_valid kept ∙ h.valid;
        leads_to = ap pte_to_addr kept ∙ h.leads_to;
      }

  pub leaf-IsTree : IsTree root tag written
  leaf-IsTree = record {
    framed = tree.framed;
    positive = tree.positive;
    at_top = tree.at_top;
    held = tree.held;
    in_place = λ q n at.
        InPlace-old root tag tag s.mem written.mem q n (kept-Hangs q) (tree.in_place q n at);
    branch = λ p n i at inner li valid.
        let kept = inner_kept p i n at inner li in
        let (leafless, child) = tree.branch p n i at inner li (ap is_valid (sym kept) ∙ valid) in
        (ap is_leaf kept ∙ leafless, ap (λ e. tag (pte_to_addr e)) kept ∙ child);
  }

  -- The tables of another address are as they were.
  top_kept : (w : ℕ) → written.mem (slot root (vpn w 2)) ≡ s.mem (slot root (vpn w 2))
  top_kept w = inner_kept root (vpn w 2) top tree.at_top (omega arith) (vpn-lt w 2)

  mid_kept :
      (w : ℕ)
      → is_valid (s.mem (slot root (vpn w 2))) ≡ true
      → written.mem (slot (mid_table root s.mem w) (vpn w 1))
        ≡ s.mem (slot (mid_table root s.mem w) (vpn w 1))
  mid_kept w valid =
      inner_kept (mid_table root s.mem w) (vpn w 1) (mid (vpn w 2)) (mid_table-tag tree w valid).1
        (omega arith) (vpn-lt w 1)

  pub leaf-HasTables : (w : ℕ) → HasTables root s.mem w → HasTables root written.mem w
  leaf-HasTables w h = record {
    mid_valid = ap is_valid (top_kept w) ∙ h.mid_valid;
    low_valid =
        ap (λ e. is_valid (written.mem (slot (pte_to_addr e) (vpn w 1)))) (top_kept w)
        ∙ ap is_valid (mid_kept w h.mid_valid)
        ∙ h.low_valid;
  }

  low_kept :
      (w : ℕ) → HasTables root s.mem w → low_table root written.mem w ≡ low_table root s.mem w
  low_kept w h =
      ap (λ e. pte_to_addr (written.mem (slot (pte_to_addr e) (vpn w 1)))) (top_kept w)
      ∙ ap pte_to_addr (mid_kept w h.mid_valid)

  -- An address of the page resolves through the leaf.
  pub v2p-hit :
      (w : ℕ) → page_of w ≡ page_of vaddr → v2p written.mem root w ≡ done (some (leaf_addr 0 w e))
  v2p-hit w same =
      let (e_0, e_1, e_2) = vpn-page_of w vaddr same in
      let e_mid : mid_table root s.mem w ≡ mid_table root s.mem vaddr =
        ap (λ i. pte_to_addr (s.mem (slot root i))) e_2 in
      let e_entry : slot (mid_table root s.mem w) (vpn w 1)
          ≡ slot (mid_table root s.mem vaddr) (vpn vaddr 1) =
        omega (arith, e_mid, e_1) in
      let h : HasTables root s.mem w = record {
        mid_valid = ap (λ i. is_valid (s.mem (slot root i))) e_2 ∙ has.mid_valid;
        low_valid = ap (λ v. is_valid (s.mem v)) e_entry ∙ has.low_valid;
      } in
      let e_low : low_table root written.mem w ≡ low_table root s.mem vaddr =
        low_kept w h ∙ ap (λ v. pte_to_addr (s.mem v)) e_entry in
      let e_target : slot (low_table root written.mem w) (vpn w 0) ≡ target =
        omega (arith, e_low, e_0) in
      v2p-HasTables leaf-IsTree w (leaf-HasTables w h)
      ∙ ap (resolve written.mem w 0) e_target
      ∙ resolve-target s.mem w target e ok final 0

  miss :
      (w q : ℕ) (m : Node)
      → page_of w ≢ page_of vaddr
      → tag q ≡ some m
      → OnWay w m
      → slot q (vpn w 0) ≢ target
  unfolding OnWay
  miss w q m apart at way hit =
      let (same, place) =
        slot-inj (vpn w 0) (vpn vaddr 0) (tagged-IsFrame tree q m at)
          (tagged-IsFrame tree (low_table root s.mem vaddr) (low (vpn vaddr 2) (vpn vaddr 1))
            low_tag)
          (vpn-lt w 0) (vpn-lt vaddr 0) hit in
      let node : m ≡ low (vpn vaddr 2) (vpn vaddr 1) = cc (at, low_tag, ap tag same) in
      let (e_2, e_1) = subst (OnWay w) node way in
      apart (page_of-vpn w vaddr place (sym e_1) (sym e_2))

  -- An address of another page resolves as before.
  resolve-miss :
      (w k q : ℕ) (m : Node)
      → page_of w ≢ page_of vaddr
      → tag q ≡ some m
      → depth m ≡ k
      → OnWay w m
      → resolve written.mem w k (slot q (vpn w k)) ≡ resolve s.mem w k (slot q (vpn w k))
  resolve-miss w zero q m apart at level way =
      resolve-same s.mem written.mem w (slot q (vpn w 0))
        (write_word-other s.mem target e (slot q (vpn w 0)) (miss w q m apart at way))
  resolve-miss w (suc k) q m apart at level way =
      let j = vpn w (suc k) in
      let kept = inner_kept q j m at (omega arith) (vpn-lt w (suc k)) in
      elim (Bool-cases (is_valid (s.mem (slot q j)))) [
        | inl valid ↦
            let c = pte_to_addr (s.mem (slot q j)) in
            let (leafless, child) = tree.branch q m j at (omega arith) (vpn-lt w (suc k)) valid in
            let f = tagged-IsFrame tree c (below m j) child in
            resolve-branch written.mem w k (slot q j) c f (ap is_valid kept ∙ valid)
              (ap is_leaf kept ∙ leafless) (ap pte_to_addr kept)
            ∙ resolve-miss w k c (below m j) apart child (depth-below m j k level)
                (OnWay-below w k m level way)
            ∙ sym (resolve-branch s.mem w k (slot q j) c f valid leafless refl)
        | inr invalid ↦
            resolve-invalid written.mem w (suc k) (slot q j) (ap is_valid kept ∙ invalid)
            ∙ sym (resolve-invalid s.mem w (suc k) (slot q j) invalid)
      ]

  pub v2p-miss : (w : ℕ) → page_of w ≢ page_of vaddr → v2p written.mem root w ≡ v2p s.mem root w
  unfolding v2p OnWay
  v2p-miss w apart =
      let there =
        entry_addr-slot (vpn w 2) (tagged-IsFrame tree root top tree.at_top) (vpn-lt w 2) in
      ap (resolve written.mem w 2) there
      ∙ resolve-miss w 2 root top apart tree.at_top refl refl
      ∙ sym (ap (resolve s.mem w 2) there)
