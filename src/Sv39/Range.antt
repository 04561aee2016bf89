-- ===== src/Sv39/Range.antt =====
-- `id_map_range` of src/mm/paging/sv39/map.rs.
use vesper.Prelude.{
  ℕ, ◌+◌, ◌-◌, ◌*◌, ◌/◌, ◌%◌, ◌^◌, ◌<◌, ◌≤◌, ◌≡◌, ◌≢◌, ap, ◌∙◌, Option, arith, bit_and, ==_iff,
  done, true,
}
use vesper.PageFrame.{page_size}
use vesper.PageFrame.Ready.{IsReady}
use vesper.Sv39.PteFlags
use vesper.Sv39.{Space, v2p, id_map_range, is_multiple_of}
use vesper.Sv39.Tree.{Node, IsTree}
use vesper.Sv39.Identity.{identify, table_pages, id_map_from-IsReady}

even-is_multiple_of : (n : ℕ) → n % page_size ≡ 0 → is_multiple_of n page_size ≡ true
even-is_multiple_of n e = (==_iff (n % page_size) 0).1 e

-- `id_map_range` from a page on to another, both in the first 39 bits, with flags of ten bits that
-- have a permission, on a tree of tables with 4 KiB leaves, each on a page of its own from the heap,
-- with two pages to spare for each 2 MiB region of the range: it returns and leaves such a tree. An
-- address of the first 39 bits translates to itself if it stands in the range, and as before if it
-- does not.
pub id_map_range-identify :
    {root : ℕ} {tag : ℕ → Option Node} {s : Space} (start stop bits k : ℕ)
    → IsTree root tag s
    → bits < 2 ^ 10
    → bit_and bits PteFlags.rwx ≢ 0
    → start % page_size ≡ 0
    → stop % page_size ≡ 0
    → start ≤ stop
    → stop ≤ 2 ^ 39
    → IsReady (table_pages start ((stop - start) / page_size) + k) s.heap
    → (s' : Space) × (tag' : ℕ → Option Node) × (id_map_range root start stop bits s ≡ done s')
      × IsTree root tag' s'
      × IsReady k s'.heap
      × ((w : ℕ) → w < 2 ^ 39 → v2p s'.mem root w ≡ identify start stop (v2p s.mem root) w)
unfolding id_map_range
id_map_range-identify {root} {tag} {s} start stop bits k tree small some_rwx even even' le fits
      ready =
    let n = (stop - start) / page_size in
    let end_same : start + n * page_size ≡ stop = omega (arith, even, even', le) in
    let r =
      id_map_from-IsReady start n bits k small some_rwx tree even (omega (arith, end_same, fits))
        ready in
    (
      r.space,
      r.tags,
      rw (even-is_multiple_of start even, even-is_multiple_of stop even') r.returns,
      r.tree,
      r.ready,
      λ w lt. r.translates w lt ∙ ap (λ h. identify start h (v2p s.mem root) w) end_same,
    )
