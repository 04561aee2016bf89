-- ===== src/PageFrame/FirstFit.antt =====
-- Requests of `allocate` in src/mm/alloc/page_frame.rs: the window that is granted, and refusals.
use vesper.Prelude.{
  ℕ, zero, suc, ◌+◌, ◌<◌, ◌≤◌, ◌≡◌, ◌≢◌, refl, sym, ap, ◌∙◌, true, none, some, List, [], ◌∷◌, ◌++◌,
  ◌⊎◌, inl, inr, arith, Bool-cases, Option-cases, done, length,
}
use vesper.PageFrame.Placed.{IsPlaced, page_addr_placed}
use vesper.PageFrame.{Heap, all_free, position, page_addr, take_run, allocate}
use vesper.PageFrame.Segments.{
  Segment, gap, run, render, pages, gaps, pages-append, pages-gaps, length-render,
}
use vesper.PageFrame.Allocate.{Fits, position-Fits, position-render_run}

gaps-all_free : (p : ℕ) (post : List Segment) → all_free p (render (gaps p ++ post)) ≡ true
unfolding all_free
gaps-all_free zero post = refl
gaps-all_free (suc p) post = gaps-all_free p post

pub position_found :
    (q : ℕ) (pre post : List Segment)
    → (i : ℕ) × (position (suc q) (render (pre ++ (gaps (suc q) ++ post))) ≡ some i)
      × (i ≤ pages pre)
unfolding position
position_found q [] post = (0, rw (gaps-all_free (suc q) post), omega arith)
position_found q (gap ∷ pre) post =
    let (j, e, b) = position_found q pre post in
    elim (Bool-cases (all_free (suc q) (0 ∷ render (pre ++ (gaps (suc q) ++ post))))) [
      | inl fits ↦ (0, rw fits, omega arith)
      | inr later ↦ (suc j, rw (later, e), omega arith)
    ]
position_found q (run n ∷ pre) post =
    let (j, e, b) = position_found q pre post in
    (
      suc n + j,
      ground (arith, position-render_run q n (render (pre ++ (gaps (suc q) ++ post)))),
      omega arith,
    )

Fits-in : {q i : ℕ} {s : List Segment} → Fits q i s → i + suc q ≤ pages s
Fits-in {q} {i} {s} f = omega (
  arith,
  f.index,
  ap pages f.split,
  pages-append f.pre (gaps (suc q) ++ f.post),
  pages-append (gaps (suc q)) f.post,
  pages-gaps (suc q),
)

-- The window that `position` finds is the first one.
position_least :
    (q i : ℕ) (s pre post : List Segment)
    → position (suc q) (render s) ≡ some i
    → s ≡ pre ++ (gaps (suc q) ++ post)
    → i ≤ pages pre
position_least q i s pre post e split =
    let (j, found, le) = position_found q pre post in
    let same : some i ≡ some j = sym e ∙ ap (λ r. position (suc q) (render r)) split ∙ found in
    let eq : i ≡ j = cc in omega arith

module _ (h : Heap) (s : List Segment) (held : h.table ≡ render s) (q : ℕ) where
  allocate-position :
      {p : ℕ} {h' : Heap}
      → allocate (suc q) h ≡ done (some p, h')
      → (i : ℕ) × (position (suc q) h.table ≡ some i)
        × (p ≡ page_addr h i)
        × (h' ≡ record h { table = take_run i (suc q) h.table })
  unfolding allocate
  allocate-position e = elim (Option-cases (position (suc q) h.table)) [
    | inl miss ↦ ground arith
    | inr (i, found) ↦ (i, found, ground arith, ground arith)
  ]

  pub allocate_granted :
      (i : ℕ)
      → position (suc q) h.table ≡ some i
      → 0 < page_addr h i
      → allocate (suc q) h
        ≡ done (some (page_addr h i), record h { table = take_run i (suc q) h.table })
  unfolding allocate
  allocate_granted i found pos = ground arith

  allocate_refused : position (suc q) h.table ≡ none → allocate (suc q) h ≡ done (none, h)
  unfolding allocate
  allocate_refused miss = ground arith

  -- On a table of whole runs, where a request for at least one page is granted: the table held that
  -- many free pages side by side, the address is that of the first of them, no such block begins
  -- before it, and in the new table they are one run and all other pages are as they were.
  pub allocate-run :
      {p : ℕ} {h' : Heap}
      → allocate (suc q) h ≡ done (some p, h')
      → (pre post : List Segment) × (s ≡ pre ++ (gaps (suc q) ++ post))
        × (p ≡ page_addr h (pages pre))
        × (h' ≡ record h { table = render (pre ++ (run q ∷ post)) })
        × ((pre' post' : List Segment)
            → s ≡ pre' ++ (gaps (suc q) ++ post')
            → pages pre ≤ pages pre')
  allocate-run e =
      let (i, found, at, marked) = allocate-position e in
      let found' : position (suc q) (render s) ≡ some i = rw (← held) found in
      let f = position-Fits q s i found' in
      (
        f.pre,
        f.post,
        f.split,
        rw (← f.index) at,
        rw (← f.marked, ← held) marked,
        λ pre' post' split. rw (← f.index) (position_least q i s pre' post' found' split),
      )

  -- On a placed heap whose table is one of whole runs, a request for at least one page does not
  -- panic: it is granted an address, or it is refused with the heap unchanged and the table holds
  -- no block of that many free pages.
  pub allocate_total :
      IsPlaced h
      → ((p : ℕ) × (h' : Heap) × (allocate (suc q) h ≡ done (some p, h')))
        ⊎ ((allocate (suc q) h ≡ done (none, h))
            × ((pre post : List Segment) → s ≢ pre ++ (gaps (suc q) ++ post)))
  allocate_total placed = elim (Option-cases (position (suc q) h.table)) [
    | inl miss ↦ inr (allocate_refused miss, λ pre post split. no_window miss pre post split)
    | inr (i, found) ↦ inl (granted i found)
  ]
    where
      no_window :
          position (suc q) h.table ≡ none
          → (pre post : List Segment) → s ≢ pre ++ (gaps (suc q) ++ post)
      no_window miss pre post split =
          let (j, found, le) = position_found q pre post in
          let found' : position (suc q) h.table ≡ some j = rw (held, split) found in cc

      granted :
          (i : ℕ)
          → position (suc q) h.table ≡ some i
          → (p : ℕ) × (h' : Heap) × (allocate (suc q) h ≡ done (some p, h'))
      granted i found =
          let found' : position (suc q) (render s) ≡ some i = rw (← held) found in
          let f = position-Fits q s i found' in
          let lt : i < length h.table = omega (arith, Fits-in f, ap length held, length-render s) in
          (
            page_addr h i,
            record h { table = take_run i (suc q) h.table },
            allocate_granted i found (page_addr_placed i placed lt).1,
          )
