-- ===== src/Sv39/Tree.antt =====
-- The tables of src/mm/paging/sv39/map.rs as a tree of pages that the heap does not hand out.
use vesper.Prelude.{ℕ, ◌+◌, ◌*◌, ◌/◌, ◌%◌, ◌^◌, ◌<◌, ◌≤◌, ◌≡◌, true, false, Option, some, arith}
use vesper.Prelude.Masks.{bit_and-mask}
use vesper.PageFrame.{Heap, Memory, page_size}
use vesper.PageFrame.Fresh.{IsFramed, IsHeld}
use vesper.Sv39.{Space, table_len, is_valid, is_leaf, vpn, entry_addr, pte_to_addr}

-- Where a table stands: at the root, behind an entry of it, or behind an entry of such a table.
pub data Node : Type 0 where
  top : Node
  mid : ℕ → Node
  low : ℕ → ℕ → Node

-- The level of a table's entries.
abbrev pub depth : Node → ℕ
depth top = 2
depth (mid i) = 1
depth (low i j) = 0

abbrev pub below : Node → ℕ → Node
below top i = mid i
below (mid i) j = low i j
below (low i j) k = low i j

-- The address of an entry.
abbrev pub slot : ℕ → ℕ → ℕ
slot p i = p + 8 * i

-- The data page of a descriptor.
abbrev pub page : Space → ℕ → ℕ
page s i = s.heap.alloc_start + i * page_size

-- A table hangs behind a valid entry of the table above it.
pub record Hangs (tag : ℕ → Option Node) (mem : Memory) (q : ℕ) (n : Node) (i : ℕ) : Type 0 where
  pub parent : ℕ
  pub place : tag parent ≡ some n
  pub inside : i < table_len
  pub valid : is_valid (mem (slot parent i)) ≡ true
  pub leads_to : pte_to_addr (mem (slot parent i)) ≡ q

-- What its place says of a table.
abbrev pub InPlace : ℕ → (ℕ → Option Node) → Memory → ℕ → Node → Type 0
InPlace root tag mem q top = q ≡ root
InPlace root tag mem q (mid i) = Hangs tag mem q top i
InPlace root tag mem q (low i j) = Hangs tag mem q (mid i) j

-- A tree with 4 KiB leaves only. Each table has one place in it, and its page is held.
pub record IsTree (root : ℕ) (tag : ℕ → Option Node) (s : Space) : Type 0 where
  pub framed : IsFramed s.heap
  pub positive : 0 < s.heap.alloc_start
  pub at_top : tag root ≡ some top
  pub held : (p : ℕ) (n : Node) → tag p ≡ some n → IsHeld s.heap p
  pub in_place : (p : ℕ) (n : Node) → tag p ≡ some n → InPlace root tag s.mem p n
  pub branch :
      (p : ℕ) (n : Node) (i : ℕ)
      → tag p ≡ some n
      → 0 < depth n
      → i < table_len
      → is_valid (s.mem (slot p i)) ≡ true
      → (is_leaf (s.mem (slot p i)) ≡ false)
        × (tag (pte_to_addr (s.mem (slot p i))) ≡ some (below n i))

pub vpn-lt : (vaddr i : ℕ) → vpn vaddr i < table_len
vpn-lt vaddr i = omega (arith, bit_and-mask 9 (vaddr / 2 ^ (12 + 9 * i)))

-- A frame: a page that is aligned, not at 0, and below 2^56.
pub record IsFrame (p : ℕ) : Type 0 where
  pub aligned : p % page_size ≡ 0
  pub positive : 0 < p
  pub low : p + page_size ≤ 2 ^ 56

pub held-IsFrame : {h : Heap} {p : ℕ} → IsFramed h → 0 < h.alloc_start → IsHeld h p → IsFrame p
held-IsFrame framed positive held = record {
  aligned = omega (arith, held.address, framed.aligned);
  positive = omega (arith, held.address);
  low = omega (arith, held.address, held.inside, framed.low);
}

pub entry_addr-slot : {p : ℕ} (i : ℕ) → IsFrame p → i < table_len → entry_addr p i ≡ slot p i
entry_addr-slot i f lt = omega (arith, f.low)

-- Entries of two frames are the same only if the frames and the places in them are.
pub slot-inj :
    {p q : ℕ} (i j : ℕ)
    → IsFrame p
    → IsFrame q
    → i < table_len
    → j < table_len
    → slot p i ≡ slot q j
    → (p ≡ q) × (i ≡ j)
slot-inj {p} {q} i j f g li lj e =
    let same : p ≡ q = omega (arith, f.aligned, g.aligned) in (same, omega arith)

-- A table below another is not at the root's level.
pub depth-below_top : (n : Node) (i : ℕ) → 0 < depth n → depth (below n i) < 2
depth-below_top top i pos = omega arith
depth-below_top (mid j) i pos = omega arith
depth-below_top (low j k) i pos = absurd (omega arith)
