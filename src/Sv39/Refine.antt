-- ===== src/Sv39/Refine.antt =====
-- `map` of src/mm/paging/sv39/map.rs at level 0, as an update of the translation of pages.
use vesper.Prelude.{
  get_or, length, ℕ, suc, ◌+◌, ◌*◌, ◌/◌, ◌%◌, ◌^◌, ◌<◌, ◌≡◌, ◌≢◌, refl, ap, ◌∙◌, Option, some,
  arith, ◌==◌, ne→==, ==_iff, if◌then◌else◌, inr, Outcome, done, ℕ_discrete, bit_and,
}
use vesper.PageFrame.{page_size}
use vesper.PageFrame.Ready.{IsReady}
use vesper.Sv39.PteFlags
use vesper.Sv39.{Space, v2p, map, leaf}
use vesper.Sv39.Leaf.{leaf-is_valid, leaf-is_leaf, leaf_addr-leaf}
use vesper.Sv39.Tree.{page, Node, IsTree}
use vesper.Sv39.Grown.{Gain}
use vesper.Sv39.Way.{HasTables, CanMap, descend-Way}
use vesper.Sv39.Write.{page_of, written, leaf-IsTree, leaf-HasTables, v2p-hit, v2p-miss}

-- A translation, and the same one with a page mapped to a frame of 56 bits.
abbrev pub Translation : Type 0
Translation = ℕ → Outcome (Option ℕ)

abbrev pub remap : ℕ → ℕ → Translation → Translation
remap vaddr paddr before w =
    if page_of w == page_of vaddr
    then done (some (paddr % 2 ^ 56 / page_size * page_size + w % page_size))
    else before w

-- What `map` leaves.
pub record Mapped (root : ℕ) (tag : ℕ → Option Node) (s : Space) (vaddr paddr bits k : ℕ)
    : Type 0 where
  pub space : Space
  pub tags : ℕ → Option Node
  pub returns : map root vaddr paddr bits 0 s ≡ done space
  pub tree : IsTree root tags space
  pub ready : IsReady k space.heap
  pub tables : HasTables root space.mem vaddr
  pub same_start : space.heap.alloc_start ≡ s.heap.alloc_start
  pub same_length : length space.heap.table ≡ length s.heap.table
  pub gains :
      (i : ℕ)
      → Gain
          (tag (page s i))
          (tags (page s i))
          (get_or s.heap.table i 0)
          (get_or space.heap.table i 0)
  pub translates : (w : ℕ) → v2p space.mem root w ≡ remap vaddr paddr (v2p s.mem root) w

module _ {root : ℕ} {tag : ℕ → Option Node} {s : Space} (tree : IsTree root tag s)
    (vaddr paddr bits k : ℕ) (small : bits < 2 ^ 10) (some_rwx : bit_and bits PteFlags.rwx ≢ 0)
    (pay : CanMap root vaddr k s) where
  pub map-Mapped : Mapped root tag s vaddr paddr bits k
  unfolding map
  map-Mapped =
      let way = descend-Way tree vaddr k pay in
      let e = leaf paddr bits in
      let ok = leaf-is_valid paddr bits small in
      let final = leaf-is_leaf paddr bits small some_rwx in
      let t = way.grown.tree in
      record {
        space = written t vaddr e way.tables ok final;
        tags = way.tags;
        returns = rw (ne→== _ _ some_rwx) (rw way.returns refl);
        tree = leaf-IsTree t vaddr e way.tables ok final;
        ready = way.ready;
        tables = leaf-HasTables t vaddr e way.tables ok final vaddr way.tables;
        same_start = way.grown.same_start;
        same_length = way.grown.same_length;
        gains = way.grown.gains;
        translates = λ w. elim (ℕ_discrete (page_of w) (page_of vaddr)) [
          | yes same ↦ rw ((==_iff (page_of w) (page_of vaddr)).1 same) (
              v2p-hit t vaddr e way.tables ok final w same
              ∙ ap (λ a. done (some a)) (leaf_addr-leaf 0 paddr bits w small (omega arith)))
          | no apart ↦
              rw (ne→== (page_of w) (page_of vaddr) apart)
                (v2p-miss t vaddr e way.tables ok final w apart ∙ way.grown.same w)
        ];
      }

-- `map` of a 4 KiB page, with flags of ten bits that have a permission, on a tree of tables with 4 KiB
-- leaves, each on a page of its own from the heap, with two pages to spare: it returns and leaves such
-- a tree, and as many pages to spare less two. The page of `vaddr`, of which 39 bits count, translates
-- to the frame of `paddr`, of which 56 bits count, and every other page as before.
pub map-refines :
    {root : ℕ} {tag : ℕ → Option Node} {s : Space} (vaddr paddr bits k : ℕ)
    → IsTree root tag s
    → bits < 2 ^ 10
    → bit_and bits PteFlags.rwx ≢ 0
    → IsReady (suc (suc k)) s.heap
    → (s' : Space) × (tag' : ℕ → Option Node) × (map root vaddr paddr bits 0 s ≡ done s')
      × IsTree root tag' s'
      × IsReady k s'.heap
      × ((w : ℕ) → v2p s'.mem root w ≡ remap vaddr paddr (v2p s.mem root) w)
map-refines vaddr paddr bits k tree small some_rwx ready =
    let m = map-Mapped tree vaddr paddr bits k small some_rwx (inr ready) in
    (m.space, m.tags, m.returns, m.tree, m.ready, m.translates)
