-- ===== src/PageFrame/Allocate.antt =====
-- What `allocate` of src/mm/alloc/page_frame.rs does to the segments of its table.
use vesper.Prelude.{
  ℕ, zero, suc, ◌+◌, ◌-◌, ◌≡◌, refl, ap, ◌∙◌, true, some, List, [], ◌∷◌, ◌++◌, inl, inr, arith,
  Bool-cases, Option-cases,
}
use mathlib.Core.Option
use vesper.PageFrame.{PageDesc, mark_taken, all_free, position, take_run}
use vesper.PageFrame.Segments.{Segment, gap, run, render_run, render, pages, gaps}

-- No window of pages begins inside a run.
pub position-render_run :
    (q n : ℕ) (t : List PageDesc)
    → position (suc q) (render_run n t) ≡ Option.map (λ i. suc n + i) (position (suc q) t)
unfolding position all_free
position-render_run q zero t = ground arith
position-render_run q (suc n) t = ground (arith, position-render_run q n t)

-- A window that fits at the head is that many gaps.
all_free-gaps :
    (p : ℕ) (s : List Segment)
    → all_free p (render s) ≡ true
    → (post : List Segment) × (s ≡ gaps p ++ post)
unfolding all_free
all_free-gaps zero s h = (s, refl)
all_free-gaps (suc p) [] h = ground arith
all_free-gaps (suc p) (gap ∷ s) h =
    let (post, e) = all_free-gaps p s h in (post, ap (λ r. gap ∷ r) e)
all_free-gaps (suc p) (run zero ∷ s) h = ground arith
all_free-gaps (suc p) (run (suc n) ∷ s) h = ground arith

take_run-suc :
    (i p : ℕ) (d : PageDesc) (t : List PageDesc) → take_run (suc i) p (d ∷ t) ≡ d ∷ take_run i p t
unfolding take_run
take_run-suc i p d t = let e : suc i + (p - 1) ≡ suc (i + (p - 1)) = omega arith in rw e

take_run-cons :
    (q : ℕ) (d : PageDesc) (t : List PageDesc)
    → take_run 0 (suc (suc q)) (d ∷ t) ≡ mark_taken d ∷ take_run 0 (suc q) t
unfolding take_run
take_run-cons q d t = let e : 0 + (suc (suc q) - 1) ≡ suc (0 + (suc q - 1)) = omega arith in rw e

take_run-gaps :
    (q : ℕ) (post : List Segment)
    → take_run 0 (suc q) (render (gaps (suc q) ++ post)) ≡ render (run q ∷ post)
unfolding mark_taken
take_run-gaps zero post = unfold take_run in refl
take_run-gaps (suc q) post =
    take_run-cons q 0 (render (gaps (suc q) ++ post)) ∙ ap (λ t. 1 ∷ t) (take_run-gaps q post)

-- A window further on leaves a run before it alone.
take_run-render_run :
    (n i p : ℕ) (t : List PageDesc)
    → take_run (suc n + i) p (render_run n t) ≡ render_run n (take_run i p t)
take_run-render_run zero i p t =
    let e : suc zero + i ≡ suc i = omega arith in rw e (take_run-suc i p 3 t)
take_run-render_run (suc n) i p t =
    let e : suc (suc n) + i ≡ suc (suc n + i) = omega arith in
    rw e (
      take_run-suc (suc n + i) p 1 (render_run n t) ∙ ap (λ t. 1 ∷ t) (take_run-render_run n i p t))

-- `p` pages from page `i` of the segments are gaps, and marking them makes them a run.
pub record Fits (q i : ℕ) (s : List Segment) : Type 0 where
  pub pre : List Segment
  pub post : List Segment
  pub split : s ≡ pre ++ (gaps (suc q) ++ post)
  pub index : i ≡ pages pre
  pub marked : take_run i (suc q) (render s) ≡ render (pre ++ (run q ∷ post))

Fits-here : (q : ℕ) (s : List Segment) → all_free (suc q) (render s) ≡ true → Fits q 0 s
Fits-here q s h =
    let (after, e) = all_free-gaps (suc q) s h in
    record {
      pre = [];
      post = after;
      split = e;
      index = refl;
      marked = rw e (take_run-gaps q after);
    }

Fits-gap : {q j : ℕ} {s : List Segment} → Fits q j s → Fits q (suc j) (gap ∷ s)
Fits-gap {q} {j} {s} f = record {
  pre = gap ∷ f.pre;
  post = f.post;
  split = ap (λ r. gap ∷ r) f.split;
  index = ap suc f.index;
  marked = take_run-suc j (suc q) 0 (render s) ∙ ap (λ t. 0 ∷ t) f.marked;
}

Fits-run : {q j n : ℕ} {s : List Segment} → Fits q j s → Fits q (suc n + j) (run n ∷ s)
Fits-run {q} {j} {n} {s} f = record {
  pre = run n ∷ f.pre;
  post = f.post;
  split = ap (λ r. run n ∷ r) f.split;
  index = ap (λ k. suc n + k) f.index;
  marked = take_run-render_run n j (suc q) (render s) ∙ ap (render_run n) f.marked;
}

-- The first window is one.
pub position-Fits :
    (q : ℕ) (s : List Segment) (i : ℕ) → position (suc q) (render s) ≡ some i → Fits q i s
unfolding position
position-Fits q [] i h = ground arith
position-Fits q (gap ∷ s) i h = elim (Bool-cases (all_free (suc q) (0 ∷ render s))) [
  | inl fits ↦ let e : i ≡ 0 = ground arith in rw e (Fits-here q (gap ∷ s) fits)
  | inr later ↦ elim (Option-cases (position (suc q) (render s))) [
    | inl e ↦ ground arith
    | inr (j, e) ↦ let e' : i ≡ suc j = ground arith in rw e' (Fits-gap (position-Fits q s j e))
  ]
]
position-Fits q (run n ∷ s) i h = elim (Option-cases (position (suc q) (render s))) [
  | inl e ↦ ground (arith, position-render_run q n (render s))
  | inr (j, e) ↦
      let e' : i ≡ suc n + j = ground (arith, position-render_run q n (render s)) in
      rw e' (Fits-run (position-Fits q s j e))
]
