-- ===== src/PageFrame/Startup.antt =====
-- The heap that `init` of src/mm/alloc/page_frame.rs leaves.
use vesper.Prelude.{ℕ, zero, suc, ◌+◌, ◌*◌, ◌^◌, ◌<◌, ◌≤◌, ◌≡◌, refl, ap, ◌∙◌, arith, length}
use vesper.PageFrame.{Heap, page_size, init}
use vesper.PageFrame.Segments.{gaps, length-render, pages-gaps}
use vesper.PageFrame.Placed.{init-gaps}
use vesper.PageFrame.Ready.{IsReady, free_below}
use vesper.PageFrame.Fresh.{IsFramed}

free_below-gaps : (n m : ℕ) → n ≤ m → free_below n (gaps m) ≡ n
free_below-gaps zero zero le = refl
free_below-gaps zero (suc m) le = refl
free_below-gaps (suc n) zero le = absurd (omega arith)
free_below-gaps (suc n) (suc m) le = ap suc (free_below-gaps n m (omega arith))

-- The pages in front of the heap's end are to spare, and all pages are frames below 2^56.
pub init-IsReady :
    (n : ℕ) (h : Heap)
    → 0 < length h.table
    → n ≤ length h.table
    → h.heap_start + length h.table + page_size + n * page_size ≤ h.heap_start + h.heap_size
    → h.heap_start + length h.table + page_size + length h.table * page_size ≤ 2 ^ 56
    → h.heap_start + h.heap_size < 2 ^ 64
    → IsReady n (init h) × IsFramed (init h)
unfolding init
init-IsReady n h some_page few fits low small =
    let (table, aligned, above, below) = init-gaps h some_page (omega arith) in
    let same : length (init h).table ≡ length h.table =
      ap length table ∙ length-render (gaps (length h.table)) ∙ pages-gaps (length h.table) in
    (
      record {
        segments = gaps (length h.table);
        limit = n;
        placed = record { positive = omega (arith, above); below = omega (arith, same, below) };
        held = table;
        inside = omega (arith, below);
        spare = omega (arith, free_below-gaps n (length h.table) few);
      },
      record { aligned = aligned; low = omega (arith, same, below) },
    )
