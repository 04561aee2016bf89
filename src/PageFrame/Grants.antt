-- ===== src/PageFrame/Grants.antt =====
-- The abstract view of src/mm/alloc/page_frame.rs: which page begins a run that a caller holds, and how
-- many pages the run has.
mod Runs
pub mod Refines
mod Tests
use vesper.Prelude.{
  ℕ, zero, suc, ◌+◌, ◌-◌, ◌<◌, ◌≤◌, ◌≡◌, ◌⊎◌, Option, none, some, List, [], ◌∷◌, ltb, ◌==◌,
  if◌then◌else◌, length, done,
}
use vesper.PageFrame.{Heap, page_addr, allocate, deallocate}
use vesper.PageFrame.Segments.{Segment, gap, run, render}

abbrev pub Grants : Type 0
Grants = ℕ → Option ℕ

abbrev pub no_grants : Grants
no_grants i = none

abbrev pub update : Grants → ℕ → Option ℕ → Grants
update f i v j = if j == i then v else f j

-- The run that begins at a page.
unfoldable pub held : List Segment → Grants
held [] i = none
held (gap ∷ s) zero = none
held (gap ∷ s) (suc i) = held s i
held (run n ∷ s) zero = some (suc n)
held (run n ∷ s) (suc i) = if ltb i n then none else held s (i - n)

-- A heap whose table is one of whole runs, those that the callers hold.
pub record Represents (h : Heap) (f : Grants) : Type 0 where
  pub segments : List Segment
  pub table : h.table ≡ render segments
  pub grants : (i : ℕ) → f i ≡ held segments i

-- Two grants have no page in common.
abbrev pub Disjoint : Grants → Type 0
Disjoint f = (i j n m : ℕ) → f i ≡ some n → f j ≡ some m → i < j → i + n ≤ j

-- One call of a caller that frees only what it holds. Page `i` of the table stands for its address.
pub data Step : Heap → Grants → Heap → Grants → Type 0 where
  grant :
      {h h' : Heap} {f f' : Grants} (q i : ℕ)
      → i < length h.table
      → allocate (suc q) h ≡ done (some (page_addr h i), h')
      → f' ≡ update f i (some (suc q))
      → Step h f h' f'
  refuse : {h h' : Heap} {f : Grants} (q : ℕ) → allocate (suc q) h ≡ done (none, h') → Step h f h' f
  give_back :
      {h h' : Heap} {f f' : Grants} (i n : ℕ)
      → f i ≡ some n
      → deallocate (page_addr h i) h ≡ done h'
      → f' ≡ update f i none
      → Step h f h' f'

pub data Reach (h : Heap) (f : Grants) : Heap → Grants → Type 0 where
  here : Reach h f h f
  onward : {h₁ h₂ : Heap} {f₁ f₂ : Grants} → Reach h f h₁ f₁ → Step h₁ f₁ h₂ f₂ → Reach h f h₂ f₂
