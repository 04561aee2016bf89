-- ===== src/Virtio.antt =====
-- src/drivers/virtio/device.rs and spec.rs: the descriptors of a request, and which of them are free.
pub mod Chain
pub mod Device
mod Tests
use vesper.Prelude.{
  ℕ, zero, suc, ◌+◌, ◌^◌, bit_and, bit_or, Bool, true, false, Option, none, some, List, [], ◌∷◌,
  map, Outcome, done, panic, ◌==◌, if◌then◌else◌, length, set, leb, not,
}

abbrev pub desc_f_next : ℕ
desc_f_next = 1

abbrev pub desc_f_write : ℕ
desc_f_write = 2

pub record Descriptor : Type 0 where
  pub addr : ℕ
  pub len : ℕ
  pub flags : ℕ
  pub next : ℕ

-- `for idx in indices { free[*idx] = true }`
abbrev pub release : List ℕ → List Bool → List Bool
release [] free = free
release (i ∷ is) free = release is (set free i true)

-- The loop of `alloc_desc_chain` with `k` descriptors to find: what it found, and the flags it left.
unfoldable pub take_free : ℕ → List Bool → List ℕ × List Bool
take_free zero free = ([], free)
take_free (suc k) [] = ([], [])
take_free (suc k) (true ∷ free) =
    let (out, rest) = take_free k free in (0 ∷ map suc out, false ∷ rest)
take_free (suc k) (false ∷ free) =
    let (out, rest) = take_free (suc k) free in (map suc out, false ∷ rest)

-- Three descriptors, or those found are given back.
abbrev pub chain_of : List ℕ × List Bool → Option (ℕ × ℕ × ℕ) × List Bool
chain_of (a ∷ b ∷ c ∷ [], free) = (some (a, b, c), free)
chain_of (out, free) = (none, release out free)

unfoldable pub alloc_desc_chain : List Bool → Option (ℕ × ℕ × ℕ) × List Bool
unfolding take_free
alloc_desc_chain free = chain_of (take_free 3 free)

-- `free_desc_chain`, which follows `next` for at most `fuel` descriptors; an index out of range panics.
unfoldable pub free_desc_chain : ℕ → (ℕ → Descriptor) → ℕ → List Bool → Outcome (List Bool)
free_desc_chain zero desc idx free = panic
free_desc_chain (suc fuel) desc idx free =
    let rest = free_desc_chain fuel desc ((desc idx).next) (set free idx true) in
    if leb (length free) idx
    then panic
    else if bit_and ((desc idx).flags) desc_f_next == 0
    then done (set free idx true)
    else rest

abbrev pub write_desc : ℕ → Descriptor → (ℕ → Descriptor) → ℕ → Descriptor
write_desc at d desc i = if i == at then d else desc i

-- The buffer of a request: where it lies, its size, and whether it is written to the disk.
pub record Transfer : Type 0 where
  pub header : ℕ
  pub buffer : ℕ
  pub size : ℕ
  pub status : ℕ
  pub write : Bool

-- `size_of::<Header>()`
abbrev pub header_size : ℕ
header_size = 16

-- The three descriptors that `block_op` writes.
unfoldable pub link_chain : Transfer → ℕ × ℕ × ℕ → (ℕ → Descriptor) → ℕ → Descriptor
link_chain t (head, body, stat) desc =
    write_desc stat (record { addr = t.status; len = 1; flags = desc_f_write; next = 0 })
      (write_desc body
        (record {
          addr = t.buffer;
          len = t.size;
          flags = bit_or desc_f_next (if t.write then 0 else desc_f_write);
          next = stat;
        })
        (write_desc head
          (record { addr = t.header; len = header_size; flags = desc_f_next; next = body }) desc))
