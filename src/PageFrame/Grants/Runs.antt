-- ===== src/PageFrame/Grants/Runs.antt =====
-- The runs of a sequence of segments, by the page that they begin at.
use vesper.Prelude.{
  ℕ, zero, suc, ◌+◌, ◌-◌, ◌≡◌, inl, inr, refl, sym, ap, ◌∙◌, none, some, List, [], ◌∷◌, ◌++◌, arith,
  ltb, ge→ltb, ◌==◌, Bool-cases, if◌then◌else◌,
}
use vesper.PageFrame.Segments.{Segment, gap, run, pages, gaps}
use vesper.PageFrame.Grants.{update, held, Disjoint}

held-gaps :
    (q i : ℕ) (post : List Segment)
    → held (gaps q ++ post) i ≡ (if ltb i q then none else held post (i - q))
unfolding held
held-gaps zero i post = let e : i - 0 ≡ i = omega arith in rw (e, ge→ltb i 0 (omega arith)) refl
held-gaps (suc q) zero post = ground arith
held-gaps (suc q) (suc i) post = ground (arith, held-gaps q i post)

-- A block of gaps becomes a run.
pub held-run :
    (q : ℕ) (pre post : List Segment) (j : ℕ)
    → held (pre ++ (run q ∷ post)) j
      ≡ update (held (pre ++ (gaps (suc q) ++ post))) (pages pre) (some (suc q)) j
unfolding held
held-run q [] post zero = refl
held-run q [] post (suc i) = ground (arith, held-gaps q i post)
held-run q (gap ∷ pre) post zero = ground arith
held-run q (gap ∷ pre) post (suc i) = ground (arith, held-run q pre post i)
held-run q (run m ∷ pre) post zero = ground arith
held-run q (run m ∷ pre) post (suc i) = ground (arith, held-run q pre post (i - m))

pub held-gap :
    (q : ℕ) (pre post : List Segment) → held (pre ++ (gaps (suc q) ++ post)) (pages pre) ≡ none
unfolding held
held-gap q [] post = refl
held-gap q (gap ∷ pre) post = held-gap q pre post
held-gap q (run m ∷ pre) post =
    let at : suc m + pages pre ≡ suc (m + pages pre) = omega arith in
    let back : m + pages pre - m ≡ pages pre = omega arith in
    rw (at, ge→ltb (m + pages pre) m (omega arith), back) (held-gap q pre post)

-- A run becomes a block of gaps.
pub held-gaps_again :
    (q : ℕ) (pre post : List Segment) (j : ℕ)
    → held (pre ++ (gaps (suc q) ++ post)) j
      ≡ update (held (pre ++ (run q ∷ post))) (pages pre) none j
held-gaps_again q pre post j = elim (Bool-cases (j == pages pre)) [
  | inl here ↦
      let same : j ≡ pages pre = ground arith in
      rw here (ap (held (pre ++ (gaps (suc q) ++ post))) same ∙ held-gap q pre post)
  | inr other ↦ rw other (sym (held-run q pre post j ∙ rw other))
]

pub held-none : (n i : ℕ) → held (gaps n) i ≡ none
unfolding held
held-none zero i = refl
held-none (suc n) zero = refl
held-none (suc n) (suc i) = held-none n i

-- A run that begins at a page.
pub held-some :
    (s : List Segment) (i n : ℕ)
    → held s i ≡ some n
    → (pre post : List Segment) × (m : ℕ) × (s ≡ pre ++ (run m ∷ post))
      × (i ≡ pages pre)
      × (n ≡ suc m)
unfolding held
held-some [] i n e = absurd (cc)
held-some (gap ∷ s) zero n e = absurd (cc)
held-some (gap ∷ s) (suc i) n e =
    let (pre, post, m, split, at, size) = held-some s i n e in
    (gap ∷ pre, post, m, ap (λ r. gap ∷ r) split, omega arith, size)
held-some (run k ∷ s) zero n e = ([], s, k, refl, refl, ground arith)
held-some (run k ∷ s) (suc i) n e = elim (Bool-cases (ltb i k)) [
  | inl inside ↦ ground arith
  | inr behind ↦
      let (pre, post, m, split, at, size) = held-some s (i - k) n (ground arith) in
      (run k ∷ pre, post, m, ap (λ r. run k ∷ r) split, ground arith, size)
]

-- A run ends in front of the next one.
pub held-Disjoint : (s : List Segment) → Disjoint (held s)
unfolding held
held-Disjoint [] i j n m e f lt = absurd (cc)
held-Disjoint (gap ∷ s) zero j n m e f lt = absurd (cc)
held-Disjoint (gap ∷ s) (suc i) zero n m e f lt = absurd (cc)
held-Disjoint (gap ∷ s) (suc i) (suc j) n m e f lt =
    omega (arith, held-Disjoint s i j n m e f (omega arith))
held-Disjoint (run k ∷ s) zero zero n m e f lt = absurd (omega arith)
held-Disjoint (run k ∷ s) zero (suc j) n m e f lt = ground arith
held-Disjoint (run k ∷ s) (suc i) zero n m e f lt = absurd (omega arith)
held-Disjoint (run k ∷ s) (suc i) (suc j) n m e f lt = elim (Bool-cases (ltb i k)) [
  | inl inside ↦ ground arith
  | inr behind ↦
      let first : held s (i - k) ≡ some n = ground arith in
      let second : held s (j - k) ≡ some m = ground arith in
      ground (arith, held-Disjoint s (i - k) (j - k) n m first second)
]
