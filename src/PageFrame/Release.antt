-- ===== src/PageFrame/Release.antt =====
-- `deallocate` of src/mm/alloc/page_frame.rs on a page that is a run of its own.
use vesper.Prelude.{
  ℕ, zero, suc, ◌+◌, ◌-◌, ◌*◌, ◌/◌, ◌%◌, ◌^◌, ◌<◌, ◌≡◌, ◌≢◌, refl, ap, ◌∙◌, true, List, [], ◌∷◌,
  arith, length, done, get_or, set, length-set, leb, ltb,
}
use vesper.PageFrame.{Heap, PageDesc, page_size, is_taken, is_last, free_run, free_at, deallocate}
use vesper.PageFrame.Fresh.{IsHeld}

get_or-set_self : (t : List PageDesc) (i : ℕ) → i < length t → get_or (set t i 0) i 0 ≡ 0
get_or-set_self [] i lt = absurd (omega arith)
get_or-set_self (d ∷ t) zero lt = refl
get_or-set_self (d ∷ t) (suc i) lt = get_or-set_self t i (omega arith)

get_or-set_ne : (t : List PageDesc) (i j : ℕ) → j ≢ i → get_or (set t i 0) j 0 ≡ get_or t j 0
get_or-set_ne [] i j ne = refl
get_or-set_ne (d ∷ t) zero zero ne = absurd (ne refl)
get_or-set_ne (d ∷ t) zero (suc j) ne = refl
get_or-set_ne (d ∷ t) (suc i) zero ne = refl
get_or-set_ne (d ∷ t) (suc i) (suc j) ne = get_or-set_ne t i j (λ e. ne (ap suc e))

free_run-single : (d : PageDesc) (t : List PageDesc) → d ≡ 3 → free_run (d ∷ t) ≡ done (0 ∷ t)
unfolding free_run is_taken is_last
free_run-single d t e = rw e refl

free_at-single : (i : ℕ) (t : List PageDesc) → get_or t i 0 ≡ 3 → free_at i t ≡ done (set t i 0)
unfolding free_at
free_at-single i [] e = absurd (omega (arith, e))
free_at-single zero (d ∷ t) e = free_run-single d t e
free_at-single (suc i) (d ∷ t) e = rw (free_at-single i t e) refl

-- The heap without the page.
pub record Released (h h' : Heap) (p : ℕ) : Type 0 where
  pub same_start : h'.alloc_start ≡ h.alloc_start
  pub same_heap_start : h'.heap_start ≡ h.heap_start
  pub same_size : h'.heap_size ≡ h.heap_size
  pub same_length : length h'.table ≡ length h.table
  pub free :
      (i : ℕ) → i < length h.table → p ≡ h.alloc_start + i * page_size → get_or h'.table i 0 ≡ 0
  pub others :
      (i : ℕ) → p ≢ h.alloc_start + i * page_size → get_or h'.table i 0 ≡ get_or h.table i 0

-- A page that is a run of its own can be given back: it is free then, and nothing else changes.
pub deallocate-IsHeld :
    {h : Heap} {p : ℕ} → IsHeld h p → (h' : Heap) × (deallocate p h ≡ done h') × Released h h' p
unfolding deallocate
deallocate-IsHeld {h} {p} held =
    let low : leb h.alloc_start p ≡ true = ground (arith, held.address) in
    let high : ltb p ((h.heap_start + h.heap_size) % 2 ^ 64) ≡ true = ground (arith, held.near) in
    let index : (p - h.alloc_start) / page_size ≡ held.index = omega (arith, held.address) in
    (
      record h { table = set h.table held.index 0 },
      rw (low, high) (rw index (rw (free_at-single held.index h.table held.single) refl)),
      record {
        same_start = refl;
        same_heap_start = refl;
        same_size = refl;
        same_length = length-set h.table held.index 0;
        free = λ i lt at.
            let e : i ≡ held.index = omega (arith, held.address, at) in
            ap (λ j. get_or (set h.table held.index 0) j 0) e
            ∙ get_or-set_self h.table held.index held.inside;
        others =
            λ i ne. get_or-set_ne h.table held.index i (λ e. ne (omega (arith, held.address, e)));
      },
    )

-- Another page that is held stays so.
pub IsHeld-Released : {h h' : Heap} {p q : ℕ} → Released h h' p → q ≢ p → IsHeld h q → IsHeld h' q
IsHeld-Released {h} {h'} {p} {q} r ne held = record {
  index = held.index;
  inside = omega (arith, r.same_length, held.inside);
  address = omega (arith, r.same_start, held.address);
  single = r.others held.index (λ e. ne (omega (arith, held.address, e))) ∙ held.single;
  near = omega (arith, r.same_heap_start, r.same_size, held.near);
}
