-- ===== src/Sv39/Identity.antt =====
-- `id_map_range` of src/mm/paging/sv39/map.rs: a range of addresses that translate to themselves.
use vesper.Prelude.{
  ℕ, zero, suc, ◌+◌, ◌-◌, ◌*◌, ◌/◌, ◌%◌, ◌^◌, ◌<◌, ◌≤◌, ◌≡◌, ◌≢◌, refl, sym, ap, ◌∙◌, ◌&&◌, Option,
  some, arith, ltb, leb, ne→==, ==_iff, if◌then◌else◌, inl, inr, ◌⊎◌, done, ℕ_discrete, bit_and,
}
use vesper.Prelude.Masks.{bit_and-mask}
use vesper.PageFrame.{Memory, page_size}
use vesper.PageFrame.Ready.{IsReady, weaken-IsReady}
use vesper.Sv39.PteFlags
use vesper.Sv39.{Space, is_valid, vpn, pte_to_addr, v2p, id_map_from}
use vesper.Sv39.Tree.{Node, slot, IsTree}
use vesper.Sv39.Way.{mid_table, HasTables, CanMap}
use vesper.Sv39.Write.{page_of}
use vesper.Sv39.Refine.{Translation, remap, map-Mapped}

-- A translation, and the same one with a range of addresses that translate to themselves.
abbrev pub identify : ℕ → ℕ → Translation → Translation
identify low high before w = if leb low w && ltb w high then done (some w) else before w

-- How many more 2 MiB regions `n` pages from `addr` on reach than that of `addr`.
abbrev pub more_regions : ℕ → ℕ → ℕ
more_regions addr n = (addr + n * page_size - 1) / 2 ^ 21 - addr / 2 ^ 21

region-vpn : (a b : ℕ) → a / 2 ^ 21 ≡ b / 2 ^ 21 → (vpn a 1 ≡ vpn b 1) × (vpn a 2 ≡ vpn b 2)
region-vpn a b e = (
  omega (arith, e, bit_and-mask 9 (a / 2 ^ 21), bit_and-mask 9 (b / 2 ^ 21)),
  omega (arith, e, bit_and-mask 9 (a / 2 ^ 30), bit_and-mask 9 (b / 2 ^ 30)),
)

-- Addresses of one region have the same tables.
region-HasTables :
    {root : ℕ} {m : Memory} (a b : ℕ)
    → a / 2 ^ 21 ≡ b / 2 ^ 21
    → HasTables root m b
    → HasTables root m a
region-HasTables {root} {m} a b e h =
    let (e_1, e_2) = region-vpn a b e in
    let e_entry : slot (mid_table root m a) (vpn a 1) ≡ slot (mid_table root m b) (vpn b 1) =
      omega (arith, ap (λ i. pte_to_addr (m (slot root i))) e_2, e_1) in
    record {
      mid_valid = ap (λ i. is_valid (m (slot root i))) e_2 ∙ h.mid_valid;
      low_valid = ap (λ v. is_valid (m v)) e_entry ∙ h.low_valid;
    }

outside :
    (addr w : ℕ)
    → addr % page_size ≡ 0
    → addr + page_size ≤ 2 ^ 39
    → w < 2 ^ 39
    → page_of w ≢ page_of addr
    → (w < addr) ⊎ (addr + page_size ≤ w)
outside addr w even fits lt apart = ground arith

-- A page of the first 39 bits that is mapped to itself.
remap-identify :
    (addr w : ℕ) (before : Translation)
    → addr % page_size ≡ 0
    → addr + page_size ≤ 2 ^ 39
    → w < 2 ^ 39
    → remap addr addr before w ≡ identify addr (addr + page_size) before w
remap-identify addr w before even fits lt = elim (ℕ_discrete (page_of w) (page_of addr)) [
  | yes same ↦
      let value : addr % 2 ^ 56 / page_size * page_size + w % page_size ≡ w =
        omega (arith, same, even, fits, lt) in
      let low : addr ≤ w = omega (arith, same, even, fits, lt) in
      let high : w < addr + page_size = omega (arith, same, even, fits, lt) in
      let inside : identify addr (addr + page_size) before w ≡ done (some w) =
        ground (arith, low, high) in
      rw ((==_iff (page_of w) (page_of addr)).1 same) (ap (λ a. done (some a)) value ∙ sym inside)
  | no apart ↦
      let out : (w < addr) ⊎ (addr + page_size ≤ w) = outside addr w even fits lt apart in
      let kept : identify addr (addr + page_size) before w ≡ before w = ground (arith, out) in
      rw (ne→== (page_of w) (page_of addr) apart) (sym kept)
]

-- A page, and the pages behind it.
identify-join :
    (a b c w : ℕ) (before : Translation)
    → a ≤ b
    → b ≤ c
    → identify b c (identify a b before) w ≡ identify a c before w
identify-join a b c w before le le' = ground arith

pub identify-cong :
    (before before' : Translation) (low high w : ℕ)
    → before w ≡ before' w
    → identify low high before w ≡ identify low high before' w
identify-cong before before' low high w e =
    ap (λ t. if leb low w && ltb w high then done (some w) else t) e

-- What the loop leaves.
pub record Identified (root : ℕ) (tag : ℕ → Option Node) (s : Space) (addr n bits k : ℕ)
    : Type 0 where
  pub space : Space
  pub tags : ℕ → Option Node
  pub returns : id_map_from root bits addr n s ≡ done space
  pub tree : IsTree root tags space
  pub ready : IsReady k space.heap
  pub translates :
      (w : ℕ)
      → w < 2 ^ 39
      → v2p space.mem root w ≡ identify addr (addr + n * page_size) (v2p s.mem root) w

module _ {root : ℕ} (bits k : ℕ) (small : bits < 2 ^ 10)
    (some_rwx : bit_and bits PteFlags.rwx ≢ 0) where
  -- The page behind one that is mapped can be mapped.
  can_go_on :
      (addr n : ℕ) (s : Space)
      → addr % page_size ≡ 0
      → HasTables root s.mem addr
      → IsReady (2 * more_regions addr (suc (suc n)) + k) s.heap
      → CanMap root (addr + page_size) (2 * more_regions (addr + page_size) (suc n) + k) s
  can_go_on addr n s even has ready =
      elim (ℕ_discrete ((addr + page_size) / 2 ^ 21) (addr / 2 ^ 21)) [
        | yes same ↦ inl (
          region-HasTables (addr + page_size) addr same has,
          weaken-IsReady (omega (arith, same)) ready,
        )
        | no new ↦ inr (weaken-IsReady (omega (arith, new)) ready)
      ]

  pub id_map_from-Identified :
      (n addr : ℕ) {tag : ℕ → Option Node} {s : Space}
      → IsTree root tag s
      → addr % page_size ≡ 0
      → addr + suc n * page_size ≤ 2 ^ 39
      → CanMap root addr (2 * more_regions addr (suc n) + k) s
      → Identified root tag s addr (suc n) bits k
  unfolding id_map_from
  id_map_from-Identified zero addr {tag} {s} tree even fits pay =
      let m = map-Mapped tree addr addr bits (2 * more_regions addr 1 + k) small some_rwx pay in
      record {
        space = m.space;
        tags = m.tags;
        returns = rw m.returns refl;
        tree = m.tree;
        ready = weaken-IsReady (omega arith) m.ready;
        translates = λ w lt. m.translates w ∙ remap-identify addr w (v2p s.mem root) even fits lt;
      }
  id_map_from-Identified (suc n) addr {tag} {s} tree even fits pay =
      let m =
        map-Mapped tree addr addr bits (2 * more_regions addr (suc (suc n)) + k) small some_rwx
          pay in
      let r =
        id_map_from-Identified n (addr + page_size) m.tree (omega (arith, even)) (omega arith)
          (can_go_on addr n m.space even m.tables m.ready) in
      record {
        space = r.space;
        tags = r.tags;
        returns = rw m.returns r.returns;
        tree = r.tree;
        ready = r.ready;
        translates = λ w lt.
            let next = addr + page_size in
            let end_same : next + suc n * page_size ≡ addr + suc (suc n) * page_size =
              omega arith in
            r.translates w lt
            ∙ identify-cong (v2p m.space.mem root) (identify addr next (v2p s.mem root)) next
                (next + suc n * page_size) w
                (m.translates w ∙ remap-identify addr w (v2p s.mem root) even (omega arith) lt)
            ∙ identify-join addr next (next + suc n * page_size) w (v2p s.mem root) (omega arith)
                (omega arith)
            ∙ ap (λ h. identify addr h (v2p s.mem root) w) end_same;
      }

-- The pages that the tables of `n` pages from `addr` on take at most: two for each 2 MiB region.
abbrev pub table_pages : ℕ → ℕ → ℕ
table_pages addr zero = 0
table_pages addr (suc n) = suc (suc (2 * more_regions addr (suc n)))

-- A range of any number of pages, with pages to spare for the tables of all its regions.
pub id_map_from-IsReady :
    {root : ℕ} {tag : ℕ → Option Node} {s : Space} (addr n bits k : ℕ)
    → bits < 2 ^ 10
    → bit_and bits PteFlags.rwx ≢ 0
    → IsTree root tag s
    → addr % page_size ≡ 0
    → addr + n * page_size ≤ 2 ^ 39
    → IsReady (table_pages addr n + k) s.heap
    → Identified root tag s addr n bits k
unfolding id_map_from
id_map_from-IsReady {root} {tag} {s} addr zero bits k small some_rwx tree even fits ready = record {
  space = s;
  tags = tag;
  returns = refl;
  tree = tree;
  ready = weaken-IsReady (omega arith) ready;
  translates = λ w lt. ground arith;
}
id_map_from-IsReady addr (suc n) bits k small some_rwx tree even fits ready =
    id_map_from-Identified bits k small some_rwx n addr tree even fits
      (inr (weaken-IsReady (omega arith) ready))
