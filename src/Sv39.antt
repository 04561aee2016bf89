-- ===== src/Sv39.antt =====
-- src/mm/paging/sv39/types.rs and map.rs: page-table entries, and the walks that install, remove and resolve
-- a mapping.
-- An entry is its 64-bit pattern, and a table the address of its first entry.
pub mod PteFlags
pub mod Leaf
pub mod Walk
pub mod Tree
mod Pointer
pub mod Link
pub mod Grown
pub mod Grow
pub mod Ensure
pub mod Way
pub mod Write
pub mod Refine
pub mod Identity
mod Range
pub mod Drop
pub mod Shrink
pub mod Unmap
mod Undo
mod Isolation
pub mod Root
mod Tests
use PteFlags
use vesper.Prelude.{
  ℕ, zero, suc, ◌+◌, ◌-◌, ◌*◌, ◌/◌, ◌%◌, ◌^◌, bit_and, bit_or, Bool, true, false, not, ◌&&◌, ◌||◌,
  Option, none, some, List, [], ◌∷◌, Outcome, done, panic, ◌>>=◌, ltb, leb, ◌==◌, if◌then◌else◌,
  get_or,
}
use vesper.PageFrame.{Heap, Memory, usize, page_size, zallocate, deallocate}

abbrev pub table_len : ℕ
table_len = 512

unfoldable pub is_valid : ℕ → Bool
is_valid e = not (bit_and e PteFlags.valid == 0)

unfoldable pub is_invalid : ℕ → Bool
unfolding is_valid
is_invalid e = not (is_valid e)

unfoldable pub is_leaf : ℕ → Bool
is_leaf e = not (bit_and e PteFlags.rwx == 0)

unfoldable pub is_branch : ℕ → Bool
unfolding is_leaf
is_branch e = not (is_leaf e)

-- `i64 >> 2`, which keeps the sign.
abbrev pub shift_right_2 : ℕ → ℕ
shift_right_2 a = if ltb a (2 ^ 63) then a / 4 else a / 4 + 3 * 2 ^ 62

-- `(entry & !0x3ff) << 2`
abbrev pub pte_to_addr : ℕ → ℕ
pte_to_addr e = usize (bit_and e (2 ^ 64 - 2 ^ 10) * 4)

-- `(vaddr >> (12 + 9 * i)) & 0x1ff`
abbrev pub vpn : ℕ → ℕ → ℕ
vpn vaddr i = bit_and (vaddr / 2 ^ (12 + 9 * i)) 0x1ff

-- The address of an entry of a table.
abbrev pub entry_addr : ℕ → ℕ → ℕ
entry_addr table i = usize (table + 8 * i)

abbrev pub write_word : ℕ → ℕ → Memory → Memory
write_word at value mem a = if a == at then value else mem a

-- The leaf that `map` writes.
unfoldable pub leaf : ℕ → ℕ → ℕ
leaf paddr bits =
    let ppn_0 = bit_and (paddr / 2 ^ 12) 0x1ff in
    let ppn_1 = bit_and (paddr / 2 ^ 21) 0x1ff in
    let ppn_2 = bit_and (paddr / 2 ^ 30) 0x3ff_ffff in
    bit_or (bit_or (bit_or (bit_or (ppn_2 * 2 ^ 28) (ppn_1 * 2 ^ 19)) (ppn_0 * 2 ^ 10)) bits)
      PteFlags.valid

-- What `map` works on.
pub record Space : Type 0 where
  pub mem : Memory
  pub heap : Heap

-- `zallocate(1).expect(..)`, and the entry that points at the new table.
abbrev pub link_table : ℕ → Option ℕ × Memory × Heap → Outcome Space
link_table v (none, mem, h) = panic
link_table v (some page, mem, h) =
    done (record { mem = write_word v (bit_or (shift_right_2 page) PteFlags.valid) mem; heap = h })

-- The table behind the entry at `v` is there.
unfoldable pub ensure_table : ℕ → Space → Outcome Space
unfolding is_invalid
ensure_table v s =
    if is_invalid (s.mem v) then zallocate 1 s.mem s.heap >>= link_table v else done s

-- `as_mut().unwrap()` and `as_ref().unwrap()` panic on a null pointer.
abbrev pub unwrap_ptr : ℕ → Outcome ℕ
unwrap_ptr p = if p == 0 then panic else done p

abbrev pub next_entry : ℕ → ℕ → ℕ → Space → Outcome (ℕ × Space)
next_entry vaddr i v s =
    unwrap_ptr (entry_addr (pte_to_addr (s.mem v)) (vpn vaddr i)) >>= λ p. done (p, s)

-- `for i in levels`, from the entry at `v` to the one that takes the leaf.
unfoldable pub descend : ℕ → List ℕ → ℕ → Space → Outcome (ℕ × Space)
unfolding ensure_table
descend vaddr [] v s = done (v, s)
descend vaddr (i ∷ is) v s = ensure_table v s >>= λ s.
    next_entry vaddr i v s >>= λ r. let (p, s') = r in descend vaddr is p s'

-- `(level..2).rev()`
abbrev pub levels : ℕ → List ℕ
levels zero = 1 ∷ 0 ∷ []
levels (suc zero) = 1 ∷ []
levels (suc (suc level)) = []

unfoldable pub map : ℕ → ℕ → ℕ → ℕ → ℕ → Space → Outcome Space
unfolding descend leaf
map root vaddr paddr bits level s =
    if bit_and bits PteFlags.rwx == 0
    then panic
    else descend vaddr (levels level) (entry_addr root (vpn vaddr 2)) s >>= λ r.
        let (v, s') = r in done (record s' { mem = write_word v (leaf paddr bits) (s'.mem) })

-- `NonNull::new(..).expect(..)` and `deallocate`.
abbrev pub deallocate_addr : ℕ → Heap → Outcome Heap
deallocate_addr addr h = unwrap_ptr addr >>= λ p. deallocate p h

-- Is the entry at an address one that `unmap` follows?
abbrev pub points : Memory → ℕ → Bool
points mem v = is_valid (mem v) && is_branch (mem v)

-- The body of the inner loop.
unfoldable pub unmap_entry : ℕ → Space → Outcome Space
unfolding is_valid is_branch
unmap_entry v s =
    if points s.mem v
    then (deallocate_addr (pte_to_addr (s.mem v)) s.heap >>= λ h.
        done (record { mem = write_word v 0 s.mem; heap = h }))
    else done s

-- `for lv1 in lv1..lv1 + n`
unfoldable pub unmap_table : ℕ → ℕ → ℕ → Space → Outcome Space
unfolding unmap_entry
unmap_table table lv1 zero s = done s
unmap_table table lv1 (suc n) s =
    unmap_entry (entry_addr table lv1) s >>= unmap_table table (lv1 + 1) n

-- The body of the outer loop. The address of the level-1 table is read before its entries are.
unfoldable pub unmap_root_entry : ℕ → Space → Outcome Space
unfolding is_valid is_branch unmap_table
unmap_root_entry v s =
    if points s.mem v
    then (unmap_table (pte_to_addr (s.mem v)) 0 table_len s >>= λ s'.
        deallocate_addr (pte_to_addr (s.mem v)) s'.heap >>= λ h.
        done (record { mem = write_word v 0 s'.mem; heap = h }))
    else done s

unfoldable pub unmap_from : ℕ → ℕ → ℕ → Space → Outcome Space
unfolding unmap_root_entry
unmap_from root lv2 zero s = done s
unmap_from root lv2 (suc n) s =
    unmap_root_entry (entry_addr root lv2) s >>= unmap_from root (lv2 + 1) n

unfoldable pub unmap : ℕ → Space → Outcome Space
unfolding unmap_from
unmap root s = unmap_from root 0 table_len s

-- The address that a leaf at level `i` stands for.
unfoldable pub leaf_addr : ℕ → ℕ → ℕ → ℕ
leaf_addr i vaddr e =
    let off_mask = 2 ^ (12 + 9 * i) - 1 in
    bit_or (bit_and (usize (e * 4)) (2 ^ 64 - 1 - off_mask)) (bit_and vaddr off_mask)

-- The rounds of the loop of `v2p` from level `i` down, at the entry at `v`.
unfoldable pub resolve : Memory → ℕ → ℕ → ℕ → Outcome (Option ℕ)
unfolding is_invalid is_leaf leaf_addr
resolve mem vaddr zero v =
    if is_invalid (mem v)
    then done none
    else if is_leaf (mem v)
    then done (some (leaf_addr 0 vaddr (mem v)))
    else done none
resolve mem vaddr (suc i) v =
    if is_invalid (mem v)
    then done none
    else if is_leaf (mem v)
    then done (some (leaf_addr (suc i) vaddr (mem v)))
    else unwrap_ptr (entry_addr (pte_to_addr (mem v)) (vpn vaddr i)) >>= resolve mem vaddr i

unfoldable pub v2p : Memory → ℕ → ℕ → Outcome (Option ℕ)
unfolding resolve
v2p mem root vaddr = resolve mem vaddr 2 (entry_addr root (vpn vaddr 2))

-- `(addr..).step_by(PAGE_SIZE)`, with `n` pages to go.
unfoldable pub id_map_from : ℕ → ℕ → ℕ → ℕ → Space → Outcome Space
unfolding map
id_map_from root bits addr zero s = done s
id_map_from root bits addr (suc n) s =
    map root addr addr bits 0 s >>= id_map_from root bits (addr + page_size) n

abbrev pub is_multiple_of : ℕ → ℕ → Bool
is_multiple_of n m = n % m == 0

unfoldable pub id_map_range : ℕ → ℕ → ℕ → ℕ → Space → Outcome Space
unfolding id_map_from
id_map_range root start end bits s =
    if is_multiple_of start page_size && is_multiple_of end page_size
    then id_map_from root bits start ((end - start) / page_size) s
    else panic
