-- ===== src/PageFrame/Segments.antt =====
-- What a descriptor table of src/mm/alloc/page_frame.rs stands for: a sequence of free pages and of
-- runs, each run held by one caller.
use vesper.Prelude.{ℕ, zero, suc, ◌+◌, ◌≡◌, refl, ap, List, [], ◌∷◌, ◌++◌, arith, replicate, length}
use vesper.PageFrame.{PageDesc}

-- `run n` is a run of `n + 1` pages.
pub data Segment : Type 0 where
  gap : Segment
  run : ℕ → Segment

-- The descriptors of a run: `n` pages taken, then one taken and last.
abbrev pub render_run : ℕ → List PageDesc → List PageDesc
render_run zero rest = 3 ∷ rest
render_run (suc n) rest = 1 ∷ render_run n rest

abbrev pub render : List Segment → List PageDesc
render [] = []
render (gap ∷ s) = 0 ∷ render s
render (run n ∷ s) = render_run n (render s)

-- How many pages the segments cover.
abbrev pub pages : List Segment → ℕ
pages [] = 0
pages (gap ∷ s) = suc (pages s)
pages (run n ∷ s) = suc n + pages s

abbrev pub gaps : ℕ → List Segment
gaps n = replicate n gap

length-render_run : (n : ℕ) (t : List PageDesc) → length (render_run n t) ≡ suc n + length t
length-render_run zero t = omega arith
length-render_run (suc n) t = omega (arith, length-render_run n t)

pub length-render : (s : List Segment) → length (render s) ≡ pages s
length-render [] = refl
length-render (gap ∷ s) = ap suc (length-render s)
length-render (run n ∷ s) = omega (arith, length-render_run n (render s), length-render s)

pub pages-append : (s r : List Segment) → pages (s ++ r) ≡ pages s + pages r
pages-append [] r = omega arith
pages-append (gap ∷ s) r = omega (arith, pages-append s r)
pages-append (run n ∷ s) r = omega (arith, pages-append s r)

pub pages-gaps : (n : ℕ) → pages (gaps n) ≡ n
pages-gaps zero = refl
pages-gaps (suc n) = ap suc (pages-gaps n)
