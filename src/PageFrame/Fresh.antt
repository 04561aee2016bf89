-- ===== src/PageFrame/Fresh.antt =====
-- A page that src/mm/alloc/page_frame.rs hands out is one that nobody holds.
use vesper.Prelude.{
  ℕ, zero, suc, ◌+◌, ◌*◌, ◌%◌, ◌^◌, ◌<◌, ◌≤◌, ◌≡◌, ◌≢◌, refl, sym, ap, ◌∙◌, some, List, [], ◌∷◌,
  ◌++◌, arith, length, done, inl, inr, get_or,
}
use mathlib.Core.Path.{subst}
use vesper.PageFrame.{Heap, PageDesc, page_size, allocate}
use vesper.PageFrame.Segments.{
  Segment, gap, run, render, render_run, pages, length-render, pages-append,
}
use vesper.PageFrame.Placed.{page_addr_placed}
use vesper.PageFrame.FirstFit.{allocate-run, allocate_total}
use vesper.PageFrame.Deallocate.{heap_end}
use vesper.PageFrame.Ready.{IsReady, free_below-gap, taken-IsReady}

-- The data pages are whole frames below 2^56.
pub record IsFramed (h : Heap) : Type 0 where
  pub aligned : h.alloc_start % page_size ≡ 0
  pub low : h.alloc_start + length h.table * page_size ≤ 2 ^ 56

-- A page of the heap that is a run of its own, in front of the heap's end.
pub record IsHeld (h : Heap) (p : ℕ) : Type 0 where
  pub index : ℕ
  pub inside : index < length h.table
  pub address : p ≡ h.alloc_start + index * page_size
  pub single : get_or h.table index 0 ≡ 3
  pub near : p < heap_end h

render_run-get :
    (n k i : ℕ) (t : List PageDesc) → k ≡ suc n + i → get_or (render_run n t) k 0 ≡ get_or t i 0
render_run-get zero zero i t e = absurd (omega arith)
render_run-get zero (suc k) i t e = ap (λ j. get_or t j 0) (omega arith)
render_run-get (suc n) zero i t e = absurd (omega arith)
render_run-get (suc n) (suc k) i t e = render_run-get n k i t (omega arith)

-- A free page becomes a run of its own.
get_or-free : (pre post : List Segment) → get_or (render (pre ++ (gap ∷ post))) (pages pre) 0 ≡ 0
get_or-free [] post = refl
get_or-free (gap ∷ pre) post = get_or-free pre post
get_or-free (run n ∷ pre) post =
    render_run-get n (suc n + pages pre) (pages pre) (render (pre ++ (gap ∷ post))) refl
    ∙ get_or-free pre post

get_or-busy : (pre post : List Segment) → get_or (render (pre ++ (run 0 ∷ post))) (pages pre) 0 ≡ 3
get_or-busy [] post = refl
get_or-busy (gap ∷ pre) post = get_or-busy pre post
get_or-busy (run n ∷ pre) post =
    render_run-get n (suc n + pages pre) (pages pre) (render (pre ++ (run 0 ∷ post))) refl
    ∙ get_or-busy pre post

render_run-other :
    (n i : ℕ) (t t' : List PageDesc)
    → ((j : ℕ) → i ≡ suc n + j → get_or t j 0 ≡ get_or t' j 0)
    → get_or (render_run n t) i 0 ≡ get_or (render_run n t') i 0
render_run-other zero zero t t' e = refl
render_run-other zero (suc i) t t' e = e i (omega arith)
render_run-other (suc n) zero t t' e = refl
render_run-other (suc n) (suc i) t t' e = render_run-other n i t t' (λ j at. e j (omega arith))

get_or-other :
    (pre post : List Segment) (i : ℕ)
    → i ≢ pages pre
    → get_or (render (pre ++ (gap ∷ post))) i 0 ≡ get_or (render (pre ++ (run 0 ∷ post))) i 0
get_or-other [] post zero ne = absurd (ne refl)
get_or-other [] post (suc i) ne = refl
get_or-other (gap ∷ pre) post zero ne = refl
get_or-other (gap ∷ pre) post (suc i) ne = get_or-other pre post i (λ e. ne (omega arith))
get_or-other (run n ∷ pre) post i ne =
    render_run-other n i (render (pre ++ (gap ∷ post))) (render (pre ++ (run 0 ∷ post)))
      (λ j at. get_or-other pre post j (λ e. ne (omega arith)))

-- A heap behind the allocation of one page.
pub record Taken (h h' : Heap) (p : ℕ) : Type 0 where
  pub same_start : h'.alloc_start ≡ h.alloc_start
  pub same_length : length h'.table ≡ length h.table
  pub was_free : (i : ℕ) → p ≡ h.alloc_start + i * page_size → get_or h.table i 0 ≡ 0
  pub others :
      (i : ℕ) → p ≢ h.alloc_start + i * page_size → get_or h'.table i 0 ≡ get_or h.table i 0

-- A held page is not at a free descriptor.
held_elsewhere :
    {h : Heap} {p : ℕ} (pre post : List Segment)
    → h.table ≡ render (pre ++ (gap ∷ post))
    → (held : IsHeld h p) → held.index ≢ pages pre
held_elsewhere {h} {p} pre post was held e =
    let free : get_or h.table held.index 0 ≡ 0 =
      ap (λ i. get_or h.table i 0) e
      ∙ ap (λ t. get_or t (pages pre) 0) was
      ∙ get_or-free pre post in
    omega (arith, free, held.single)

-- With a page to spare, `allocate` hands out a page that was not held. It is held then, as are those
-- that were, and one page less is to spare.
pub allocate-IsHeld :
    {n : ℕ} {h : Heap}
    → IsReady (suc n) h
    → IsFramed h
    → (p : ℕ) × (h' : Heap) × (allocate 1 h ≡ done (some p, h'))
      × IsReady n h'
      × IsFramed h'
      × IsHeld h' p
      × (IsHeld h p → ⊥)
      × ((q : ℕ) → IsHeld h q → IsHeld h' q)
      × Taken h h' p
allocate-IsHeld {n} {h} r framed =
    let s = r.segments in
    let (pre', post', split', below) = free_below-gap r.limit s (omega (arith, r.spare)) in
    elim (allocate_total h s r.held 0 r.placed) [
      | inr (refused, none_left) ↦ absurd (none_left pre' post' split')
      | inl (p, h', got) ↦
          let (pre, post, split, at, after, first) = allocate-run h s r.held 0 got in
          let before = render (pre ++ (gap ∷ post)) in
          let table = render (pre ++ (run 0 ∷ post)) in
          let was : h.table ≡ before = r.held ∙ ap render split in
          let same : length table ≡ length h.table = omega (
            arith,
            ap length was,
            length-render (pre ++ (gap ∷ post)),
            length-render (pre ++ (run 0 ∷ post)),
            pages-append pre (gap ∷ post),
            pages-append pre (run 0 ∷ post),
          ) in
          let big : pages pre < length h.table = omega (
            arith,
            ap length was,
            length-render (pre ++ (gap ∷ post)),
            pages-append pre (gap ∷ post),
          ) in
          let (addr, _) = page_addr_placed (pages pre) r.placed big in
          let where_ : p ≡ h.alloc_start + pages pre * page_size = at ∙ addr in
          let h₁ : Heap = record h { table = table } in
          let kept : (q : ℕ) → IsHeld h q → IsHeld h₁ q = λ q held. record {
            index = held.index;
            inside = omega (arith, same, held.inside);
            address = held.address;
            single =
                sym (get_or-other pre post held.index (held_elsewhere pre post was held))
                ∙ sym (ap (λ t. get_or t held.index 0) was)
                ∙ held.single;
            near = held.near;
          } in
          (
            p,
            h',
            got,
            subst (IsReady n) (sym after)
                (taken-IsReady r pre post split (omega (arith, first pre' post' split'))),
            subst IsFramed (sym after)
                (record { aligned = framed.aligned; low = omega (arith, same, framed.low) }),
            subst (λ h. IsHeld h p) (sym after)
                (record {
                  index = pages pre;
                  inside = omega (arith, same, big);
                  address = where_;
                  single = get_or-busy pre post;
                  near = omega (arith, where_, first pre' post' split', below, r.inside);
                }),
            λ held. held_elsewhere pre post was held (omega (arith, held.address, where_)),
            λ q held. subst (λ h. IsHeld h q) (sym after) (kept q held),
            subst (λ h'. Taken h h' p) (sym after)
                (record {
                  same_start = refl;
                  same_length = same;
                  was_free = λ i e.
                      let here : i ≡ pages pre = omega (arith, where_, e) in
                      ap (λ i. get_or h.table i 0) here
                      ∙ ap (λ t. get_or t (pages pre) 0) was
                      ∙ get_or-free pre post;
                  others = λ i ne.
                      let apart : i ≢ pages pre = λ e. ne (omega (arith, where_, e)) in
                      sym (get_or-other pre post i apart) ∙ sym (ap (λ t. get_or t i 0) was);
                }),
          )
    ]
