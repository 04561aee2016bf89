-- ===== src/PageFrame/Misuse.antt =====
-- src/mm/alloc/page_frame.rs at the edges: addresses inside a run, and the last page of the table.
use vesper.Prelude.{
  ℕ, zero, suc, ◌+◌, ◌-◌, ◌*◌, ◌%◌, ◌^◌, ◌<◌, ◌≤◌, ◌≡◌, ◌≢◌, refl, sym, ap, ◌∙◌, Bool, true, false,
  not, ◌&&◌, some, List, [], ◌∷◌, ◌++◌, arith, Outcome, done, panic, map_done, length,
  if◌then◌else◌,
}
use mathlib.Core.List.{append-nil}
use vesper.PageFrame.Placed.{IsPlaced, init-gaps}
use vesper.PageFrame.{
  PageDesc, Heap, page_size, is_taken, is_last, free_at, page_addr, init, position, take_run,
  allocate, deallocate,
}
use vesper.PageFrame.Segments.{
  Segment, gap, run, render_run, render, pages, gaps, length-render, pages-append,
}
use vesper.PageFrame.FirstFit.{position_found, allocate_granted}
use vesper.PageFrame.Deallocate.{
  heap_end, deallocate_outside, deallocate-free_at, free_at-suc, free_at-render_run, free_at-head,
  free_run-run,
}

-- A table is closed if each run in it has its last page; `inside` says that a run is open.
closed : Bool → List PageDesc → Bool
closed inside [] = not inside
closed inside (d ∷ t) =
    if is_taken d then closed (not (is_last d)) t else not inside && closed false t

closed-render_run :
    (n : ℕ) (b : Bool) (t : List PageDesc) → closed b (render_run n t) ≡ closed false t
unfolding closed is_taken is_last
closed-render_run zero b t = refl
closed-render_run (suc n) b t = closed-render_run n true t

render_run-append : (n : ℕ) (r t : List PageDesc) → render_run n r ++ t ≡ render_run n (r ++ t)
render_run-append zero r t = refl
render_run-append (suc n) r t = ap (λ l. 1 ∷ l) (render_run-append n r t)

render-append : (s r : List Segment) → render (s ++ r) ≡ render s ++ render r
render-append [] r = refl
render-append (gap ∷ s) r = ap (λ l. 0 ∷ l) (render-append s r)
render-append (run n ∷ s) r =
    ap (render_run n) (render-append s r) ∙ sym (render_run-append n (render s) (render r))

closed-append :
    (s : List Segment) (t : List PageDesc) → closed false (render s ++ t) ≡ closed false t
unfolding closed is_taken
closed-append [] t = refl
closed-append (gap ∷ s) t = closed-append s t
closed-append (run n ∷ s) t =
    rw (render_run-append n (render s) t)
      (closed-render_run n false (render s ++ t) ∙ closed-append s t)

closed-nil : closed false [] ≡ true
unfolding closed
closed-nil = refl

closed-render : (s : List Segment) → closed false (render s) ≡ true
closed-render s = ap (closed false) (sym (append-nil (render s))) ∙ closed-append s [] ∙ closed-nil

free_at-append :
    (s : List Segment) (j : ℕ) (t : List PageDesc)
    → free_at (pages s + j) (render s ++ t) ≡ map_done (λ r. render s ++ r) (free_at j t)
free_at-append [] j t = let e : 0 + j ≡ j = omega arith in rw e (ground arith)
free_at-append (gap ∷ s) j t =
    let e : suc (pages s) + j ≡ suc (pages s + j) = omega arith in
    rw (e, free_at-suc (pages s + j) 0 (render s ++ t), free_at-append s j t) (ground arith)
free_at-append (run n ∷ s) j t =
    let e : suc n + pages s + j ≡ suc n + (pages s + j) = omega arith in
    rw
      (
        e,
        render_run-append n (render s) t,
        free_at-render_run n (pages s + j) (render s ++ t),
        free_at-append s j t,
      )
      (map_done-map_done (free_at j t))
  where
    map_done-map_done :
        (o : Outcome (List PageDesc))
        → map_done (render_run n) (map_done (λ r. render s ++ r) o)
          ≡ map_done (λ r. render_run n (render s) ++ r) o
    map_done-map_done (done r) = ap done (sym (render_run-append n (render s) r))
    map_done-map_done panic = refl

-- `k` pages of a run whose end is gone.
opened : ℕ → List PageDesc → List PageDesc
opened zero t = t
opened (suc k) t = 1 ∷ opened k t

closed-opened : (k : ℕ) (t : List PageDesc) → closed true (opened k (0 ∷ t)) ≡ false
unfolding closed opened is_taken is_last
closed-opened zero t = refl
closed-opened (suc k) t = closed-opened k t

free_at-interior :
    (k m n : ℕ) (post : List Segment)
    → n ≡ k + m
    → free_at k (render (run n ∷ post)) ≡ done (opened k (render (gaps (suc m) ++ post)))
unfolding opened
free_at-interior zero m n post e =
    let e' : n ≡ m = omega arith in rw e' (free_at-head m (render post) ∙ free_run-run m post)
free_at-interior (suc k) m n post e =
    let e' : n ≡ suc (k + m) = omega arith in
    rw e' (
      free_at-suc k 1 (render_run (k + m) (render post))
      ∙ ap (map_done (λ r. 1 ∷ r)) (free_at-interior k m (k + m) post refl))

module _ (h : Heap) (placed : IsPlaced h) where
  -- On a placed heap, given the address of a page of a run that is not its first, in front of the
  -- heap's end, `deallocate` returns, and the table that it leaves is not one of whole runs.
  pub deallocate-interior :
      (pre post : List Segment) (k n : ℕ)
      → h.table ≡ render (pre ++ (run n ∷ post))
      → k < n
      → page_addr h (pages pre + suc k) < heap_end h
      → (h' : Heap) × (deallocate (page_addr h (pages pre + suc k)) h ≡ done h')
        × ((s : List Segment) → h'.table ≢ render s)
  deallocate-interior pre post k n held lt below =
      let left : List PageDesc = opened (suc k) (render (gaps (suc (n - suc k)) ++ post)) in
      let inside : pages pre + suc k < length h.table = omega (
        arith,
        ap length held,
        length-render (pre ++ (run n ∷ post)),
        pages-append pre (run n ∷ post),
      ) in
      let freed : free_at (pages pre + suc k) h.table ≡ done (render pre ++ left) = rw (
        held,
        render-append pre (run n ∷ post),
        free_at-append pre (suc k) (render (run n ∷ post)),
        free_at-interior (suc k) (n - suc k) n post (omega arith),
      ) in
      let broken : closed false (render pre ++ left) ≡ false =
        closed-append pre left ∙ unfold closed opened is_taken is_last in closed-opened k _ in
      (
        record h { table = render pre ++ left },
        deallocate-free_at h placed (pages pre + suc k) inside below ∙ rw freed,
        λ s e. cc (broken, closed-render s, ap (closed false) e),
      )

-- On a heap that begins at a multiple of the page size, with a descriptor for every page of it, the
-- descriptors' own page included: after `init` the request for as many pages as there are
-- descriptors is granted, its last page lies behind the heap's end, and giving that page back
-- panics.
pub allocate_past_end :
    (h : Heap) (n : ℕ)
    → length h.table ≡ suc n
    → h.heap_size ≡ suc n * page_size
    → h.heap_start % page_size ≡ 0
    → h.heap_start + h.heap_size + page_size + suc n ≤ 2 ^ 64
    → (p : ℕ) × (h' : Heap) × (allocate (suc n) (init h) ≡ done (some p, h'))
      × (heap_end h ≤ p + n * page_size)
      × (deallocate (p + n * page_size) h' ≡ panic)
allocate_past_end h n len size aligned fits =
    let (free, onto, above, below) = init-gaps h (omega arith) (omega arith) in
    let held : (init h).table ≡ render (gaps (suc n)) = rw len at free in
    let (i, found, zeroth) = position_found n [] [] in
    let found' : position (suc n) (init h).table ≡ some 0 = rw held (
      ap (λ s. position (suc n) (render s)) (sym (append-nil (gaps (suc n))))
      ∙ found
      ∙ ap some (omega arith)) in
    let at : page_addr (init h) 0 ≡ (init h).alloc_start = omega arith in
    let behind : heap_end h ≤ page_addr (init h) 0 + n * page_size = omega arith in
    (
      page_addr (init h) 0,
      record (init h) { table = take_run 0 (suc n) (init h).table },
      allocate_granted (init h) (gaps (suc n)) held n 0 found' (omega arith),
      behind,
      deallocate_outside _ _ (unfold init in behind),
    )
