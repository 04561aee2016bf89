-- ===== src/PageFrame/Grants/Tests.antt =====
-- Three calls to src/mm/alloc/page_frame.rs on a heap of six pages: two pages, one page, and the two back.
use vesper.Prelude.{ℕ, ◌+◌, ◌*◌, ◌<◌, ◌≤◌, ◌≡◌, refl, some, none, [], ◌∷◌, arith, done}
use vesper.PageFrame.{Heap, page_size, page_addr, init, allocate, deallocate}
use vesper.PageFrame.Deallocate.{heap_end}
use vesper.PageFrame.Grants.{
  Grants, no_grants, update, Disjoint, Reach, here, onward, grant, give_back,
}
use vesper.PageFrame.Grants.Refines.{Reach-Disjoint}

abbrev raw : Heap
raw = record {
  heap_start = 0x8000_0000;
  heap_size = 6 * page_size;
  alloc_start = 0;
  table = 7 ∷ 7 ∷ 7 ∷ 7 ∷ 7 ∷ 7 ∷ [];
}

abbrev two : Heap
two = record raw { alloc_start = 0x8000_1000; table = 1 ∷ 3 ∷ 0 ∷ 0 ∷ 0 ∷ 0 ∷ [] }

abbrev three : Heap
three = record two { table = 1 ∷ 3 ∷ 3 ∷ 0 ∷ 0 ∷ 0 ∷ [] }

abbrev one : Heap
one = record two { table = 0 ∷ 0 ∷ 3 ∷ 0 ∷ 0 ∷ 0 ∷ [] }

abbrev grants : Grants
grants = update (update (update no_grants 0 (some 2)) 2 (some 1)) 0 none

three_calls : Reach (init raw) no_grants one grants
unfolding init allocate deallocate
three_calls =
    onward
      (onward (onward here (grant 1 0 (omega arith) refl refl))
        (grant {h' = three} 0 2 (omega arith) refl refl))
      (give_back 0 2 refl refl refl)

Reach-Disjoint_example :
    Disjoint grants
    × ((i n : ℕ) → grants i ≡ some n → i + n ≤ 6)
    × ((i n : ℕ)
        → grants i ≡ some n
        → page_addr one i < heap_end one
        → (g : Heap) × (deallocate (page_addr one i) one ≡ done g))
Reach-Disjoint_example = Reach-Disjoint raw (omega arith) (omega arith) three_calls
