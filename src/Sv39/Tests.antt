-- ===== src/Sv39/Tests.antt =====
-- A page mapped by src/mm/paging/sv39/map.rs under three tables at 0x1000, 0x2000 and 0x3000.
use mathlib.Core.Bool.{false≢true}
use vesper.Prelude.{
  inr, length, get_or, ◌+◌, ◌*◌, ◌<◌, ℕ, ◌^◌, ◌≡◌, ◌≢◌, refl, Option, some, none, [], ◌∷◌, arith,
  done, ◌==◌, if◌then◌else◌,
}
use vesper.PageFrame.{page_size, allocate, Memory, Heap}
use vesper.PageFrame.Segments.{gap, run}
use vesper.PageFrame.Ready.{IsReady}
use vesper.Sv39.{unmap, Space, map, v2p, is_valid, is_leaf, entry_addr, vpn, levels, id_map_range}
use vesper.Sv39.Walk.{Leads, v2p-map}
use vesper.Sv39.Tree.{Node, IsTree}
use vesper.Sv39.Root.{tag_root, only_root, InPlace-root}
use vesper.Sv39.Undo.{unmap-map, desc_after, unmap-frees}
use vesper.Sv39.Isolation.{overwrite, allocate-v2p}
use vesper.Sv39.Refine.{Mapped, map-Mapped, remap, map-refines}
use vesper.Sv39.Identity.{identify}
use vesper.Sv39.Range.{id_map_range-identify}

abbrev tables : Memory
tables a = if a == 0x1000 then 0x801 else if a == 0x2000 then 0xc01 else 0

abbrev space : Space
space = record {
  mem = tables;
  heap = record { heap_start = 0; heap_size = 0; alloc_start = 0; table = [] };
}

tables-Leads : Leads tables 0x123 0x3000 (levels 0) (entry_addr 0x1000 (vpn 0x123 2))
unfolding is_valid is_leaf
tables-Leads = (refl, refl, omega arith, omega arith, (refl, refl, omega arith, omega arith, refl))

v2p-map_example :
    (s' : Space) × (map 0x1000 0x123 0x8000_0000 6 0 space ≡ done s')
    × (s'.heap ≡ space.heap)
    × ((a : ℕ) → a ≢ 0x3000 → s'.mem a ≡ tables a)
    × (v2p s'.mem 0x1000 0x123 ≡ done (some 0x8000_0123))
v2p-map_example =
    v2p-map 0x1000 0x123 0x8000_0000 6 0 0x3000 space (omega arith) (omega arith) (omega arith)
      tables-Leads

-- A root table on a page of its own.
abbrev root : ℕ
root = 0x2000

abbrev heap : Heap
heap = record {
  heap_start = 0x1000;
  heap_size = 0x9000;
  alloc_start = 0x2000;
  table = 3 ∷ 0 ∷ 0 ∷ 0 ∷ 0 ∷ 0 ∷ 0 ∷ [];
}

heap-IsReady : IsReady 6 heap
heap-IsReady = record {
  segments = run 0 ∷ gap ∷ gap ∷ gap ∷ gap ∷ gap ∷ gap ∷ [];
  limit = 7;
  placed = record { positive = omega arith; below = omega arith };
  held = refl;
  inside = omega arith;
  spare = omega arith;
}

abbrev fresh : Space
fresh = record { mem = λ a. 0; heap = heap }

fresh-IsTree : IsTree root (tag_root root) fresh
unfolding is_valid
fresh-IsTree = record {
  framed = record { aligned = refl; low = omega arith };
  positive = omega arith;
  at_top = refl;
  held = λ q n at. record {
    index = 0;
    inside = omega arith;
    address = omega (arith, only_root root q n at);
    single = refl;
    near = omega (arith, only_root root q n at);
  };
  in_place = InPlace-root root fresh.mem;
  branch = λ q n i at inner li ok. absurd (false≢true ok);
}

map-refines_example :
    (s' : Space) × (tag' : ℕ → Option Node) × (map root 0x4020_1234 0x8000_0000 6 0 fresh ≡ done s')
    × IsTree root tag' s'
    × IsReady 4 s'.heap
    × ((w : ℕ) → v2p s'.mem root w ≡ remap 0x4020_1234 0x8000_0000 (v2p fresh.mem root) w)
map-refines_example =
    map-refines 0x4020_1234 0x8000_0000 6 4 fresh-IsTree (omega arith) (omega arith) heap-IsReady

id_map_range-identify_example :
    (s' : Space) × (tag' : ℕ → Option Node) × (id_map_range root 0x801f_f000 0x8020_2000 6 fresh
      ≡ done s')
    × IsTree root tag' s'
    × IsReady 2 s'.heap
    × ((w : ℕ)
        → w < 2 ^ 39
        → v2p s'.mem root w ≡ identify 0x801f_f000 0x8020_2000 (v2p fresh.mem root) w)
id_map_range-identify_example =
    id_map_range-identify 0x801f_f000 0x8020_2000 6 2 fresh-IsTree (omega arith) (omega arith) refl
      refl (omega arith) (omega arith) heap-IsReady

-- A page mapped at the fresh root.
abbrev mapped : Mapped root (tag_root root) fresh 0x4020_1234 0x8000_0000 6 4
mapped =
    map-Mapped fresh-IsTree 0x4020_1234 0x8000_0000 6 4 (omega arith) (omega arith)
      (inr heap-IsReady)

unmap-frees_example :
    (s' : Space) × (unmap root mapped.space ≡ done s')
    × ((w : ℕ) → v2p s'.mem root w ≡ done none)
    × (s'.heap.alloc_start ≡ mapped.space.heap.alloc_start)
    × (length s'.heap.table ≡ length mapped.space.heap.table)
    × ((i : ℕ)
        → i < length mapped.space.heap.table
        → get_or s'.heap.table i 0
          ≡ desc_after
              (mapped.tags (mapped.space.heap.alloc_start + i * page_size))
              (get_or mapped.space.heap.table i 0))
unmap-frees_example = unmap-frees mapped.tree

allocate-v2p_example :
    (p : ℕ) × (h' : Heap) × (allocate 1 mapped.space.heap ≡ done (some p, h'))
    × IsReady 3 h'
    × IsTree root mapped.tags (record { mem = overwrite p (λ v. 0xff) mapped.space.mem; heap = h' })
    × ((w : ℕ)
        → v2p (overwrite p (λ v. 0xff) mapped.space.mem) root w ≡ v2p mapped.space.mem root w)
allocate-v2p_example = allocate-v2p 3 (λ v. 0xff) mapped.tree mapped.ready

unmap-map_example :
    (s₁ : Space) × (s₂ : Space) × (s₃ : Space) × (map root 0x4020_1234 0x8000_0000 6 0 fresh
      ≡ done s₁)
    × (unmap root s₁ ≡ done s₂)
    × (unmap root fresh ≡ done s₃)
    × (s₂.heap.table ≡ s₃.heap.table)
unmap-map_example =
    unmap-map 0x4020_1234 0x8000_0000 6 4 fresh-IsTree (omega arith) (omega arith) heap-IsReady
