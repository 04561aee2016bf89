-- ===== src/PageFrame/Ready.antt =====
-- A heap of src/mm/alloc/page_frame.rs with pages to spare: a page can be taken and given back.
use vesper.Prelude.{
  ℕ, zero, suc, ◌+◌, ◌-◌, ◌*◌, ◌<◌, ◌≤◌, ◌≡◌, refl, sym, ap, some, List, [], ◌∷◌, ◌++◌, arith,
  length, done, inl, inr,
}
use mathlib.Core.Path.{subst}
use vesper.PageFrame.{Heap, page_size, allocate, deallocate}
use vesper.PageFrame.Segments.{Segment, gap, run, render, pages, length-render, pages-append}
use vesper.PageFrame.Placed.{IsPlaced, page_addr_placed}
use vesper.PageFrame.FirstFit.{allocate-run, allocate_total}
use vesper.PageFrame.Deallocate.{heap_end, deallocate-allocate}

-- How many of the first `limit` pages are free.
abbrev pub free_below : ℕ → List Segment → ℕ
free_below limit [] = 0
free_below zero (x ∷ s) = 0
free_below (suc limit) (gap ∷ s) = suc (free_below limit s)
free_below (suc limit) (run n ∷ s) = free_below (limit - n) s

-- The table is one of whole runs, and at least `n` of the pages in front of the heap's end are free.
pub record IsReady (n : ℕ) (h : Heap) : Type 0 where
  pub segments : List Segment
  pub limit : ℕ
  pub placed : IsPlaced h
  pub held : h.table ≡ render segments
  pub inside : h.alloc_start + limit * page_size ≤ heap_end h
  pub spare : n ≤ free_below limit segments

-- More pages to spare than are asked for.
pub weaken-IsReady : {n m : ℕ} {h : Heap} → m ≤ n → IsReady n h → IsReady m h
weaken-IsReady le r = record {
  segments = r.segments;
  limit = r.limit;
  placed = r.placed;
  held = r.held;
  inside = r.inside;
  spare = omega (arith, r.spare);
}

-- A free page below the limit.
pub free_below-gap :
    (limit : ℕ) (s : List Segment)
    → 0 < free_below limit s
    → (pre post : List Segment) × (s ≡ pre ++ (gap ∷ post)) × (pages pre < limit)
free_below-gap limit [] h = elim h [ ]
free_below-gap zero (x ∷ s) h = elim h [ ]
free_below-gap (suc limit) (gap ∷ s) h = ([], s, refl, omega arith)
free_below-gap (suc limit) (run n ∷ s) h =
    let (pre, post, e, lt) = free_below-gap (limit - n) s h in
    (run n ∷ pre, post, ap (λ r. run n ∷ r) e, omega arith)

-- Taking it leaves one less.
free_below-take :
    (limit : ℕ) (pre post : List Segment)
    → pages pre < limit
    → free_below limit (pre ++ (gap ∷ post)) ≡ suc (free_below limit (pre ++ (run 0 ∷ post)))
free_below-take zero pre post h = elim h [ ]
free_below-take (suc limit) [] post h = ap (λ l. suc (free_below l post)) (omega arith)
free_below-take (suc limit) (gap ∷ pre) post h =
    ap suc (free_below-take limit pre post (omega arith))
free_below-take (suc limit) (run n ∷ pre) post h =
    free_below-take (limit - n) pre post (omega arith)

-- One page of the heap became a run of its own.
pub taken-IsReady :
    {n : ℕ} {h : Heap} (r : IsReady (suc n) h) (pre post : List Segment)
    → r.segments ≡ pre ++ (gap ∷ post)
    → pages pre < r.limit
    → IsReady n (record h { table = render (pre ++ (run 0 ∷ post)) })
taken-IsReady {n} {h} r pre post split near =
    let after = pre ++ (run 0 ∷ post) in
    let same : length (render after) ≡ length h.table = omega (
      arith,
      ap length r.held,
      length-render r.segments,
      length-render after,
      ap pages split,
      pages-append pre (gap ∷ post),
      pages-append pre (run 0 ∷ post),
    ) in
    record {
      segments = after;
      limit = r.limit;
      placed = record { positive = r.placed.positive; below = omega (arith, same, r.placed.below) };
      held = refl;
      inside = r.inside;
      spare =
          omega
            (arith, r.spare, ap (free_below r.limit) split, free_below-take r.limit pre post near);
    }

-- With a page to spare `allocate` finds one, the heap has one less then, and giving it back restores
-- the heap.
pub allocate-IsReady :
    {n : ℕ} {h : Heap}
    → IsReady (suc n) h
    → (p : ℕ) × (h' : Heap) × (allocate 1 h ≡ done (some p, h'))
      × IsReady n h'
      × (deallocate p h' ≡ done h)
allocate-IsReady {n} {h} r =
    let s = r.segments in
    let (pre', post', split', below) = free_below-gap r.limit s (omega (arith, r.spare)) in
    elim (allocate_total h s r.held 0 r.placed) [
      | inr (refused, none_left) ↦ absurd (none_left pre' post' split')
      | inl (p, h', got) ↦
          let (pre, post, split, at, after, first) = allocate-run h s r.held 0 got in
          let near : pages pre < r.limit = omega (arith, first pre' post' split') in
          let big : pages pre < length h.table = omega (
            arith,
            ap length r.held,
            length-render s,
            ap pages split,
            pages-append pre (gap ∷ post),
          ) in
          let (addr, _) = page_addr_placed (pages pre) r.placed big in
          let low : p < heap_end h = omega (arith, r.inside) in
          (
            p,
            h',
            got,
            subst (IsReady n) (sym after) (taken-IsReady r pre post split near),
            deallocate-allocate h s 0 r.placed r.held got low,
          )
    ]
