-- ===== src/PageFrame/Tests.antt =====
-- A small heap on which src/mm/alloc/page_frame.rs is run, and the theorems at it.
use vesper.Prelude.{
  ℕ, ◌+◌, ◌*◌, ◌≤◌, ◌≡◌, refl, none, some, List, [], ◌∷◌, ◌++◌, arith, done, panic, ◌⊎◌, ◌≢◌,
}
use vesper.PageFrame.{Heap, init, allocate, deallocate, page_addr, page_size}
use vesper.PageFrame.Segments.{Segment, gap, run, render, pages, gaps}
use vesper.PageFrame.Placed.{IsPlaced}
use vesper.PageFrame.FirstFit.{allocate-run, allocate_total}
use vesper.PageFrame.Deallocate.{heap_end, deallocate-allocate}
use vesper.PageFrame.Misuse.{allocate_past_end}

-- Six pages at 0x80000000, before `init`.
abbrev raw : Heap
raw = record {
  heap_start = 0x8000_0000;
  heap_size = 6 * page_size;
  alloc_start = 0;
  table = 7 ∷ 7 ∷ 7 ∷ 7 ∷ 7 ∷ 7 ∷ [];
}

-- A run of two pages, a gap, a run of one, two gaps.
abbrev busy_segments : List Segment
busy_segments = run 1 ∷ gap ∷ run 0 ∷ gap ∷ gap ∷ []

abbrev busy : Heap
busy = record raw { alloc_start = 0x8000_1000; table = render busy_segments }

init_runs : (init raw).alloc_start ≡ 0x8000_1000
unfolding init
init_runs = refl

allocate_runs :
    allocate 2 busy ≡ done (some 0x8000_5000, record busy { table = 1 ∷ 3 ∷ 0 ∷ 3 ∷ 1 ∷ 3 ∷ [] })
unfolding allocate
allocate_runs = refl

busy-IsPlaced : IsPlaced busy
busy-IsPlaced = omega arith

-- The two gaps at the end are the first block of two pages.
allocate-run_example :
    (pre post : List Segment) × (busy_segments ≡ pre ++ (gaps 2 ++ post))
    × (0x8000_5000 ≡ page_addr busy (pages pre))
    × (record busy { table = 1 ∷ 3 ∷ 0 ∷ 3 ∷ 1 ∷ 3 ∷ [] }
        ≡ record busy { table = render (pre ++ (run 1 ∷ post)) })
    × ((pre' post' : List Segment)
        → busy_segments ≡ pre' ++ (gaps 2 ++ post')
        → pages pre ≤ pages pre')
allocate-run_example = allocate-run busy busy_segments refl 1 allocate_runs

-- Three pages in a row are not to be had.
allocate_total_example :
    ((p : ℕ) × (h' : Heap) × (allocate 3 busy ≡ done (some p, h')))
    ⊎ ((allocate 3 busy ≡ done (none, busy))
        × ((pre post : List Segment) → busy_segments ≢ pre ++ (gaps 3 ++ post)))
allocate_total_example = allocate_total busy busy_segments refl 2 busy-IsPlaced

deallocate-allocate_example :
    deallocate 0x8000_5000 (record busy { table = 1 ∷ 3 ∷ 0 ∷ 3 ∷ 1 ∷ 3 ∷ [] }) ≡ done busy
deallocate-allocate_example =
    deallocate-allocate busy busy_segments 1 busy-IsPlaced refl allocate_runs (omega arith)

allocate_past_end_example :
    (p : ℕ) × (h' : Heap) × (allocate 6 (init raw) ≡ done (some p, h'))
    × (heap_end raw ≤ p + 5 * page_size)
    × (deallocate (p + 5 * page_size) h' ≡ panic)
allocate_past_end_example = allocate_past_end raw 5 refl (omega arith) (omega arith) (omega arith)
