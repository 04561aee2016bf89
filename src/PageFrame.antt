-- ===== src/PageFrame.antt =====
-- src/mm/alloc/page_frame.rs: the first-fit page-frame allocator.
-- The heap's descriptor table is a list of bytes, one for each page; the statics and the linker
-- symbols that the functions read are the other fields.
pub mod Segments
pub mod Placed
mod Allocate
pub mod FirstFit
mod Deallocate
pub mod Ready
pub mod Fresh
pub mod Startup
pub mod Release
mod Misuse
pub mod Grants
mod Tests
use vesper.Prelude.{
  ℕ, zero, suc, ◌+◌, ◌-◌, ◌*◌, ◌/◌, ◌%◌, ◌^◌, bit_and, bit_or, Bool, true, false, not, ◌&&◌, Option,
  none, some, List, [], ◌∷◌, map, Outcome, done, panic, map_done, length, ltb, leb, ◌==◌,
  if◌then◌else◌,
}
use mathlib.Core.Option

abbrev pub page_order : ℕ
page_order = 12

abbrev pub page_size : ℕ
page_size = 2 ^ page_order

-- `usize` arithmetic wraps.
abbrev pub usize : ℕ → ℕ
usize n = n % 2 ^ 64

-- `PageDesc`, a byte, and its two flags.
abbrev pub PageDesc : Type 0
PageDesc = ℕ

abbrev pub taken : PageDesc
taken = 1

abbrev pub last : PageDesc
last = 2

unfoldable pub is_taken : PageDesc → Bool
is_taken d = not (bit_and d taken == 0)

unfoldable pub is_last : PageDesc → Bool
is_last d = not (bit_and d last == 0)

unfoldable pub clear : PageDesc → PageDesc
clear d = 0

unfoldable pub mark_taken : PageDesc → PageDesc
mark_taken d = bit_or d taken

unfoldable pub mark_last : PageDesc → PageDesc
mark_last d = bit_or d last

pub record Heap : Type 0 where
  pub heap_start : ℕ
  pub heap_size : ℕ
  pub alloc_start : ℕ
  pub table : List PageDesc

-- `n.next_multiple_of(page_size)`
abbrev pub next_multiple_of : ℕ → ℕ → ℕ
next_multiple_of n m = (n + m - 1) / m * m

unfoldable pub init : Heap → Heap
unfolding clear
init h = record h {
  table = map clear h.table;
  alloc_start = usize (next_multiple_of (h.heap_start + length h.table) page_size);
}

-- Do the first `n` descriptors exist, and is none of them taken? (one window of `windows(n)`)
unfoldable pub all_free : ℕ → List PageDesc → Bool
unfolding is_taken
all_free zero t = true
all_free (suc n) [] = false
all_free (suc n) (d ∷ t) = not (is_taken d) && all_free n t

-- `table.windows(n).position(..)`, for `n > 0`
unfoldable pub position : ℕ → List PageDesc → Option ℕ
unfolding all_free
position n [] = none
position n (d ∷ t) =
    let later = Option.map suc (position n t) in if all_free n (d ∷ t) then some 0 else later

-- `for p in table[start..start + n].iter_mut() { f(p) }`
unfoldable pub on_range : (PageDesc → PageDesc) → ℕ → ℕ → List PageDesc → List PageDesc
on_range f zero zero t = t
on_range f zero (suc n) [] = []
on_range f zero (suc n) (d ∷ t) = f d ∷ on_range f zero n t
on_range f (suc start) n [] = []
on_range f (suc start) n (d ∷ t) = d ∷ on_range f start n t

-- The run `[start, start + pages)` is marked taken and its last page marked so.
unfoldable pub take_run : ℕ → ℕ → List PageDesc → List PageDesc
unfolding on_range mark_taken mark_last
take_run start pages t =
    on_range mark_last (start + (pages - 1)) 1 (on_range mark_taken start pages t)

-- `NonNull::new`
abbrev pub non_null : ℕ → Option ℕ
non_null p = if p == 0 then none else some p

-- The address of the data page of descriptor `i`.
abbrev pub page_addr : Heap → ℕ → ℕ
page_addr h i = usize (h.alloc_start + i * page_size)

abbrev pub allocate_at : ℕ → Heap → Option ℕ → Option ℕ × Heap
allocate_at pages h none = (none, h)
allocate_at pages h (some start) =
    (non_null (page_addr h start), record h { table = take_run start pages h.table })

unfoldable pub allocate : ℕ → Heap → Outcome (Option ℕ × Heap)
unfolding position take_run
allocate pages h = if pages == 0 then panic else done (allocate_at pages h (position pages h.table))

-- Memory as 64-bit words at their byte addresses.
abbrev pub Memory : Type 0
Memory = ℕ → ℕ

-- `slice::from_raw_parts_mut(p, words).fill(0)`
abbrev pub fill_zero : ℕ → ℕ → Memory → Memory
fill_zero p words mem a = if leb p a && ltb a (p + words * 8) then 0 else mem a

abbrev pub zero_pages : ℕ → Memory → Option ℕ × Heap → Option ℕ × Memory × Heap
zero_pages pages mem (none, h) = (none, mem, h)
zero_pages pages mem (some p, h) = (some p, fill_zero p (page_size * pages / 8) mem, h)

unfoldable pub zallocate : ℕ → Memory → Heap → Outcome (Option ℕ × Memory × Heap)
unfolding allocate
zallocate pages mem h = map_done (zero_pages pages mem) (allocate pages h)

-- The loop of `deallocate` from the descriptor at the head of the list, with the assertion behind
-- it. Past the table's end the index panics.
unfoldable pub free_run : List PageDesc → Outcome (List PageDesc)
unfolding is_taken is_last clear
free_run [] = panic
free_run (d ∷ t) =
    let rest = free_run t in
    if is_taken d && not (is_last d)
    then map_done (λ r. clear d ∷ r) rest
    else if is_taken d && is_last d
    then done (clear d ∷ t)
    else panic

unfoldable pub free_at : ℕ → List PageDesc → Outcome (List PageDesc)
unfolding free_run
free_at i [] = panic
free_at zero (d ∷ t) = free_run (d ∷ t)
free_at (suc i) (d ∷ t) = map_done (λ r. d ∷ r) (free_at i t)

unfoldable pub deallocate : ℕ → Heap → Outcome Heap
unfolding free_at
deallocate addr h =
    if leb h.alloc_start addr && ltb addr (usize (h.heap_start + h.heap_size))
    then map_done (λ t. record h { table = t })
        (free_at ((addr - h.alloc_start) / page_size) h.table)
    else panic
