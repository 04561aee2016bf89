-- ===== src/Minix/File.antt =====
-- src/fs/minix3/fs.rs: `read_file`, which walks the direct and the indirect zones of an inode.
pub mod Content
mod Splice
pub mod Zones
mod Copy
mod Pointers
mod Indirect
pub mod Read
pub mod Total
pub mod Holes
use vesper.Prelude.{
  ℕ, zero, suc, ◌+◌, ◌-◌, ◌*◌, ◌/◌, ◌%◌, ◌^◌, min, Bool, true, false, ◌&&◌, not, Option, none, some,
  List, [], ◌∷◌, Outcome, done, ◌==◌, ltb, leb, if◌then◌else◌, take, drop, length, get_or,
}
use vesper.PageFrame.{Heap}
use vesper.Minix.{
  FsResult, ok, err, fault, FsError, block_read_failed, Inode, Driver, Fallible, block_size,
  num_direct_zones, indirect_ptrs_per_block, words_at, with_buffer,
}
use vesper.Minix.Fs.{Fs}

-- The variables of the walk: the caller's slice, `written`, `cur_offset` and `logical`.
pub record Cursor : Type 0 where
  pub out : List ℕ
  pub written : ℕ
  pub cur_offset : ℕ
  pub logical : ℕ

-- How a part of the walk ends: it goes on, or `read_file` returns.
pub data Walk : Type 0 where
  more : Cursor → Walk
  stop : Cursor → Walk
  failed : FsError → Walk
  faulted : Walk

-- `copy_nonoverlapping` to `out + at`; what does not fit is cut off, and `copy_chunk` rules it out.
abbrev pub splice : List ℕ → ℕ → List ℕ → List ℕ
splice [] at src = []
splice (x ∷ out) (suc at) src = x ∷ splice out at src
splice (x ∷ out) zero [] = x ∷ out
splice (x ∷ out) zero (y ∷ src) = y ∷ splice out zero src

abbrev pub indirect_bytes : ℕ
indirect_bytes = indirect_ptrs_per_block * block_size

-- `logical += n`
abbrev pub skip_bytes : ℕ → Cursor → Cursor
skip_bytes n c = record c { logical = c.logical + n }

abbrev pub advance : ℕ → Walk → Walk
advance n (more c) = more (skip_bytes n c)
advance n (stop c) = stop c
advance n (failed e) = failed e
advance n faulted = faulted

-- The rest of the walk, unless it has returned.
abbrev pub and_then : Walk → (Cursor → Walk) → Walk
and_then (more c) f = f c
and_then (stop c) f = stop c
and_then (failed e) f = failed e
and_then faulted f = faulted

module _ (end : ℕ) where
  -- `Ok(*cur_offset < end)`
  abbrev pub going : Cursor → Walk
  going c = if ltb c.cur_offset end then more c else stop c

  -- The copy out of a block that was read; `cur_offset < end` holds at every call. The first test stands for the
  -- overflow of `*cur_offset - block_start`, the second for a copy out of bounds.
  abbrev pub copy_chunk : Cursor → List ℕ → Walk
  copy_chunk c b =
      let in_block = c.cur_offset - c.logical in
      let chunk = min (block_size - in_block) (end - c.cur_offset) in
      if ltb c.cur_offset c.logical
      then faulted
      else if ltb (length c.out) (c.written + chunk)
      then faulted
      else going (record c {
        out = splice c.out c.written (take chunk (drop in_block b));
        written = c.written + chunk;
        cur_offset = c.cur_offset + chunk;
      })

abbrev pub pointers_of : Option (List ℕ) → (List ℕ → Walk) → Walk
pointers_of none f = failed block_read_failed
pointers_of (some b) f = f (words_at b indirect_ptrs_per_block 0)

module _ (block : ℕ → Option (List ℕ)) (end : ℕ) where
  abbrev pub copy_block : Cursor → Option (List ℕ) → Walk
  copy_block c none = failed block_read_failed
  copy_block c (some b) = copy_chunk end c b

  -- The closure `copy_zone`. `block z` is what reading zone `z` yields.
  pub copy_zone : ℕ → Cursor → Walk
  copy_zone zone c =
      if zone == 0
      then going end (record c { cur_offset = c.logical + block_size })
      else if leb (c.logical + block_size) c.cur_offset
      then more c
      else copy_block c (block zone)

  -- The loop over a block of zone numbers.
  pub copy_zones : List ℕ → Cursor → Walk
  unfolding copy_zone
  copy_zones [] c = more c
  copy_zones (z ∷ zs) c =
      if leb end c.cur_offset
      then stop c
      else and_then (advance block_size (copy_zone z c)) (copy_zones zs)

  -- `read_indirect_zone`, and the pointers of the block that it reads.
  abbrev pub on_pointers : ℕ → (List ℕ → Walk) → Walk
  on_pointers zone f = pointers_of (block zone) f

  pub walk_single : ℕ → Cursor → Walk
  unfolding copy_zones
  walk_single zone c =
      if ltb c.cur_offset end && not (zone == 0)
      then on_pointers zone (λ ptrs. copy_zones ptrs c)
      else more (skip_bytes indirect_bytes c)

  -- The loops over `dptrs`: `breaks` in the walk of the double indirect zone, which leaves at a missing
  -- entry behind the window, and not in that of the triple one.
  pub walk_dptrs : Bool → List ℕ → Cursor → Walk
  unfolding copy_zones
  walk_dptrs breaks [] c = more c
  walk_dptrs breaks (dz ∷ zs) c =
      let next = skip_bytes indirect_bytes c in
      let skipped = walk_dptrs breaks zs next in
      if dz == 0
      then (if breaks && leb end c.cur_offset then more next else skipped)
      else on_pointers dz (λ ptrs. and_then (copy_zones ptrs c) (walk_dptrs breaks zs))

  pub walk_double : ℕ → Cursor → Walk
  unfolding walk_dptrs
  walk_double zone c =
      if ltb c.cur_offset end && not (zone == 0)
      then on_pointers zone (λ ptrs. walk_dptrs true ptrs c)
      else more c

  pub walk_tptrs : List ℕ → Cursor → Walk
  unfolding walk_dptrs
  walk_tptrs [] c = more c
  walk_tptrs (tz ∷ zs) c =
      let next = skip_bytes (indirect_ptrs_per_block * indirect_bytes) c in
      let skipped = walk_tptrs zs next in
      if tz == 0
      then (if leb end c.cur_offset then more next else skipped)
      else on_pointers tz (λ ptrs. and_then (walk_dptrs false ptrs c) (walk_tptrs zs))

  pub walk_triple : ℕ → Cursor → Walk
  unfolding walk_tptrs
  walk_triple zone c =
      if ltb c.cur_offset end && not (zone == 0)
      then on_pointers zone (λ ptrs. walk_tptrs ptrs c)
      else more c

  -- The four parts of the walk in order.
  pub walk_file : Inode → Cursor → Walk
  unfolding copy_zones walk_single walk_double walk_triple
  walk_file inode c =
      and_then
        (and_then
          (and_then (copy_zones (take num_direct_zones inode.zones) c)
            (walk_single (get_or inode.zones num_direct_zones 0)))
          (walk_double (get_or inode.zones (num_direct_zones + 1) 0)))
        (walk_triple (get_or inode.zones (num_direct_zones + 2) 0))

-- `read_file` returns the count, and the caller's slice holds `out`. On an error the slice, which
-- may have been written in part, is dropped.
abbrev pub finish : Walk → FsResult (ℕ × List ℕ)
finish (more c) = ok (c.written, c.out)
finish (stop c) = ok (c.written, c.out)
finish (failed e) = err e
finish faulted = fault

abbrev pub zone_block : Driver → Fs → Heap → ℕ → Option (List ℕ)
zone_block driver fs h zone = driver fs.dev block_size (zone * block_size) h

-- `min(out.len() as u32, inode.size - offset)`
abbrev pub wanted : Inode → ℕ → List ℕ → ℕ
wanted inode offset out = min (length out % 2 ^ 32) (inode.size - offset)

abbrev pub start : ℕ → List ℕ → Cursor
start offset out = record { out = out; written = 0; cur_offset = offset; logical = 0 }

-- What is done between allocating the four buffers and dropping them.
unfoldable pub read_zones : Driver → Fs → Inode → ℕ → List ℕ → Fallible (ℕ × List ℕ)
unfolding walk_file
read_zones driver fs inode offset out h = done (
  finish (
      walk_file (zone_block driver fs h) (offset + wanted inode offset out) inode
        (start offset out)),
  h,
)

unfoldable pub read_file : Driver → Fs → Inode → ℕ → List ℕ → Fallible (ℕ × List ℕ)
unfolding with_buffer read_zones
read_file driver fs inode offset out h =
    if leb inode.size offset
    then done (ok (0, out), h)
    else if wanted inode offset out == 0
    then done (ok (0, out), h)
    else with_buffer block_size
        (with_buffer block_size
          (with_buffer block_size (with_buffer block_size (read_zones driver fs inode offset out))))
        h
