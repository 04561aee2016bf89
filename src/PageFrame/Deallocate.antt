-- ===== src/PageFrame/Deallocate.antt =====
-- What `deallocate` of src/mm/alloc/page_frame.rs does to the segments of its table.
use vesper.Prelude.{
  ℕ, zero, suc, ◌+◌, ◌-◌, ◌/◌, ◌<◌, ◌≤◌, length, ◌≡◌, refl, sym, ap, ◌∙◌, some, List, [], ◌∷◌, ◌++◌,
  arith, done, panic, map_done, dec_lt,
}
use vesper.PageFrame.Placed.{IsPlaced, page_addr_placed}
use vesper.PageFrame.{
  PageDesc, Heap, page_size, usize, free_run, free_at, page_addr, allocate, deallocate,
}
use vesper.PageFrame.Segments.{
  Segment, gap, run, render_run, render, pages, gaps, length-render, pages-append, pages-gaps,
}
use vesper.PageFrame.FirstFit.{allocate-run}

pub free_run-run :
    (n : ℕ) (post : List Segment)
    → free_run (render (run n ∷ post)) ≡ done (render (gaps (suc n) ++ post))
unfolding free_run
free_run-run zero post = refl
free_run-run (suc n) post = rw (free_run-run n post)

pub free_at-suc :
    (i : ℕ) (d : PageDesc) (t : List PageDesc)
    → free_at (suc i) (d ∷ t) ≡ map_done (λ r. d ∷ r) (free_at i t)
unfolding free_at
free_at-suc i d t = refl

pub free_at-render_run :
    (n i : ℕ) (t : List PageDesc)
    → free_at (suc n + i) (render_run n t) ≡ map_done (render_run n) (free_at i t)
free_at-render_run zero i t = let e : suc zero + i ≡ suc i = omega arith in rw e (free_at-suc i 3 t)
free_at-render_run (suc n) i t =
    let e : suc (suc n) + i ≡ suc (suc n + i) = omega arith in
    rw (e, free_at-suc (suc n + i) 1 (render_run n t), free_at-render_run n i t) (ground arith)

pub free_at-head :
    (n : ℕ) (t : List PageDesc) → free_at 0 (render_run n t) ≡ free_run (render_run n t)
unfolding free_at
free_at-head zero t = refl
free_at-head (suc n) t = refl

pub free_at-run :
    (pre post : List Segment) (n : ℕ)
    → free_at (pages pre) (render (pre ++ (run n ∷ post)))
      ≡ done (render (pre ++ (gaps (suc n) ++ post)))
free_at-run [] post n = free_at-head n (render post) ∙ free_run-run n post
free_at-run (gap ∷ pre) post n =
    free_at-suc (pages pre) 0 (render (pre ++ (run n ∷ post)))
    ∙ ap (map_done (λ r. 0 ∷ r)) (free_at-run pre post n)
free_at-run (run m ∷ pre) post n =
    free_at-render_run m (pages pre) (render (pre ++ (run n ∷ post)))
    ∙ ap (map_done (render_run m)) (free_at-run pre post n)

-- A free page is not the start of a run.
free_at-gap : (pre post : List Segment) → free_at (pages pre) (render (pre ++ (gap ∷ post))) ≡ panic
free_at-gap [] post = unfold free_at in unfold free_run in refl
free_at-gap (gap ∷ pre) post =
    free_at-suc (pages pre) 0 (render (pre ++ (gap ∷ post)))
    ∙ ap (map_done (λ r. 0 ∷ r)) (free_at-gap pre post)
free_at-gap (run m ∷ pre) post =
    free_at-render_run m (pages pre) (render (pre ++ (gap ∷ post)))
    ∙ ap (map_done (render_run m)) (free_at-gap pre post)

-- The end of the heap, as `deallocate` computes it.
abbrev pub heap_end : Heap → ℕ
heap_end h = usize (h.heap_start + h.heap_size)

-- An address behind the heap's end is refused.
pub deallocate_outside : (h : Heap) (addr : ℕ) → heap_end h ≤ addr → deallocate addr h ≡ panic
unfolding deallocate
deallocate_outside h addr le = ground arith

module _ (h : Heap) (placed : IsPlaced h) where
  pub deallocate-free_at :
      (i : ℕ)
      → i < length h.table
      → page_addr h i < heap_end h
      → deallocate (page_addr h i) h ≡ map_done (λ t. record h { table = t }) (free_at i h.table)
  unfolding deallocate
  deallocate-free_at i lt below =
      let (at, _) = page_addr_placed i placed lt in
      let index : (page_addr h i - h.alloc_start) / page_size ≡ i = omega arith in
      ground (arith, index, ap (λ j. free_at j h.table) index)

  -- On a placed heap, given the address of a run's first page, in front of the heap's end,
  -- `deallocate` makes the pages of that run free, and all other pages are as they were.
  pub deallocate-run :
      (pre post : List Segment) (n : ℕ)
      → h.table ≡ render (pre ++ (run n ∷ post))
      → page_addr h (pages pre) < heap_end h
      → deallocate (page_addr h (pages pre)) h
        ≡ done (record h { table = render (pre ++ (gaps (suc n) ++ post)) })
  deallocate-run pre post n held below =
      deallocate-free_at (pages pre)
        (omega (
          arith,
          ap length held,
          length-render (pre ++ (run n ∷ post)),
          pages-append pre (run n ∷ post),
        ))
        below
      ∙ rw (held, free_at-run pre post n)

  -- On a placed heap whose table is one of whole runs, given the address of a page that is free,
  -- `deallocate` panics.
  pub deallocate-gap :
      (pre post : List Segment)
      → h.table ≡ render (pre ++ (gap ∷ post))
      → deallocate (page_addr h (pages pre)) h ≡ panic
  deallocate-gap pre post held = elim (dec_lt (page_addr h (pages pre)) (heap_end h)) [
    | yes below ↦
        deallocate-free_at (pages pre)
          (omega (
            arith,
            ap length held,
            length-render (pre ++ (gap ∷ post)),
            pages-append pre (gap ∷ post),
          ))
          below
        ∙ rw (held, free_at-gap pre post)
    | no past ↦ deallocate_outside h (page_addr h (pages pre)) (omega arith)
  ]

-- On a placed heap whose table is one of whole runs, a run of at least one page that was allocated
-- at an address in front of the heap's end can be given back, and the heap is then as it was before
-- the allocation.
pub deallocate-allocate :
    (h : Heap) (s : List Segment) (q : ℕ) {p : ℕ} {h' : Heap}
    → IsPlaced h
    → h.table ≡ render s
    → allocate (suc q) h ≡ done (some p, h')
    → p < heap_end h
    → deallocate p h' ≡ done h
deallocate-allocate h s q {p} {h'} placed held e below =
    let (pre, post, split, at, after, _) = allocate-run h s held q e in
    let marked : List PageDesc = render (pre ++ (run q ∷ post)) in
    let same : length h.table ≡ length marked = omega (
      arith,
      ap length held,
      length-render s,
      ap pages split,
      pages-append pre (gaps (suc q) ++ post),
      pages-append (gaps (suc q)) post,
      pages-gaps (suc q),
      length-render (pre ++ (run q ∷ post)),
      pages-append pre (run q ∷ post),
    ) in
    let g : Heap = record h { table = marked } in
    let placed' : IsPlaced g = record {
      positive = placed.positive;
      below = omega (arith, placed.below);
    } in
    rw (after, at)
      (deallocate-run g placed' pre post q refl (rw at at below)
        ∙ ap (λ t. done (record h { table = t })) (ap render (sym split) ∙ sym held))
