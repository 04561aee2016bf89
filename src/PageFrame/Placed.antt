-- ===== src/PageFrame/Placed.antt =====
-- Where `init` of src/mm/alloc/page_frame.rs places the data pages, and their addresses.
use vesper.Prelude.{
  ℕ, ◌+◌, ◌*◌, ◌%◌, ◌^◌, ◌<◌, ◌≤◌, ◌≡◌, refl, ap, List, [], ◌∷◌, map, arith, length,
}
use vesper.PageFrame.{PageDesc, Heap, page_size, page_addr, clear, init}
use vesper.PageFrame.Segments.{render, gaps}

-- The data pages stand above address 0 and below the end of the address space.
pub record IsPlaced (h : Heap) : Type 0 where
  pub positive : 0 < h.alloc_start
  pub below : h.alloc_start + length h.table * page_size ≤ 2 ^ 64

-- No address of a data page wraps.
pub page_addr_placed :
    {h : Heap} (i : ℕ)
    → IsPlaced h
    → i < length h.table
    → (page_addr h i ≡ h.alloc_start + i * page_size) × (0 < page_addr h i)
page_addr_placed i v lt = omega arith

map-clear : (t : List PageDesc) → map clear t ≡ render (gaps (length t))
unfolding clear
map-clear [] = refl
map-clear (d ∷ t) = ap (λ r. 0 ∷ r) (map-clear t)

-- With at least one descriptor and a heap that ends a page in front of the end of the address
-- space, after `init` every page is free, and the data pages begin at a multiple of the page size
-- that is behind the descriptors and less than a page behind them.
pub init-gaps :
    (h : Heap)
    → 0 < length h.table
    → h.heap_start + length h.table + page_size ≤ 2 ^ 64
    → ((init h).table ≡ render (gaps (length h.table)))
      × ((init h).alloc_start % page_size ≡ 0)
      × (h.heap_start + length h.table ≤ (init h).alloc_start)
      × ((init h).alloc_start < h.heap_start + length h.table + page_size)
unfolding init
init-gaps h pos fits = (map-clear h.table, omega arith, omega arith, omega arith)
