-- ===== src/Minix/File/Holes.antt =====
-- What `read_file` (src/fs/minix3/fs.rs) does on a file whose first zone is missing.
use vesper.Prelude.{
  ℕ, ◌+◌, ◌-◌, ◌*◌, ◌<◌, ◌≤◌, ◌≡◌, ◌≢◌, ap, ◌∙◌, Option, some, List, ◌∷◌, arith, length, min, take,
  leb, false, ne→==, done, get_or,
}
use vesper.PageFrame.{Heap}
use vesper.Minix.{Inode, ok, block_size, fault, Driver}
use vesper.Minix.Fs.{Fs}
use vesper.Minix.File.{
  Cursor, more, stop, faulted, splice, copy_chunk, copy_zone, copy_zones, walk_single, walk_double,
  walk_triple, and_then, advance, walk_file, finish, start, wanted, zone_block, read_zones,
}

-- The walk at the second block.
abbrev second : List ℕ → Cursor
second out = record { out = out; written = 0; cur_offset = block_size; logical = block_size }

-- After a missing first zone the cursor stands there, wherever the window begins.
hole-rewinds :
    (block : ℕ → Option (List ℕ)) (end offset : ℕ) (out : List ℕ)
    → block_size < end
    → advance block_size (copy_zone block end 0 (start offset out)) ≡ more (second out)
unfolding copy_zone
hole-rewinds block end offset out h = ground arith

second-copy_chunk :
    (block : ℕ → Option (List ℕ)) (end zone : ℕ) (b out : List ℕ)
    → zone ≢ 0
    → block zone ≡ some b
    → copy_zone block end zone (second out) ≡ copy_chunk end (second out) b
unfolding copy_zone
second-copy_chunk block end zone b out there read = rw (ne→== _ _ there, read)

copy_zones-cons :
    (block : ℕ → Option (List ℕ)) (end z : ℕ) (zs : List ℕ) (c : Cursor)
    → c.cur_offset < end
    → copy_zones block end (z ∷ zs) c
      ≡ and_then (advance block_size (copy_zone block end z c)) (copy_zones block end zs)
unfolding copy_zones
copy_zones-cons block end z zs c live =
    let going_on : leb end c.cur_offset ≡ false = ground arith in rw going_on

module _ (block : ℕ → Option (List ℕ)) (inode : Inode) (zone : ℕ) (zones b out : List ℕ)
    (hole : inode.zones ≡ 0 ∷ zone ∷ zones) (there : zone ≢ 0) (read : block zone ≡ some b) where
  -- The rest of the walk is that at the second block.
  copy_zones-hole :
      (offset end : ℕ) (rest : List ℕ)
      → offset < end
      → block_size < end
      → copy_zones block end (0 ∷ zone ∷ rest) (start offset out)
        ≡ and_then (advance block_size (copy_chunk end (second out) b)) (copy_zones block end rest)
  copy_zones-hole offset end rest live large =
      copy_zones-cons block end 0 (zone ∷ rest) (start offset out) live
      ∙ ap (λ w. and_then w (copy_zones block end (zone ∷ rest)))
          (hole-rewinds block end offset out large)
      ∙ copy_zones-cons block end zone rest (second out) large
      ∙ ap (λ w. and_then (advance block_size w) (copy_zones block end rest))
          (second-copy_chunk block end zone b out there read)

  -- The file's second block does not fit into a small slice.
  walk_file-overrun :
      (offset end : ℕ)
      → offset < end
      → 2 * block_size ≤ end
      → length out < block_size
      → walk_file block end inode (start offset out) ≡ faulted
  unfolding walk_file
  walk_file-overrun offset end live large small =
      let chunk : copy_chunk end (second out) b ≡ faulted = ground arith in
      let loop : copy_zones block end (0 ∷ zone ∷ take 5 zones) (start offset out) ≡ faulted =
        copy_zones-hole offset end (take 5 zones) live (omega arith)
        ∙ ap (λ w. and_then (advance block_size w) (copy_zones block end (take 5 zones))) chunk in
      ap
        (λ w.
          and_then
            (and_then (and_then w (walk_single block end (get_or inode.zones 7 0)))
              (walk_double block end (get_or inode.zones 8 0)))
            (walk_triple block end (get_or inode.zones 9 0)))
        (ap (λ zs. copy_zones block end (take 7 zs) (start offset out)) hole ∙ loop)

  -- A window of the first two blocks: what is copied to the slice's start is the second block.
  walk_file-shift :
      (n : ℕ)
      → 0 < n
      → n ≤ block_size
      → length out ≡ block_size + n
      → walk_file block (block_size + n) inode (start 0 out)
        ≡ stop (record {
          out = splice out 0 (take n b);
          written = n;
          cur_offset = block_size + n;
          logical = block_size;
        })
  unfolding walk_file
  walk_file-shift n pos le size =
      let chunk : copy_chunk (block_size + n) (second out) b
          ≡ stop (record {
            out = splice out 0 (take n b);
            written = n;
            cur_offset = block_size + n;
            logical = block_size;
          }) =
        let m : min block_size (block_size + n - block_size) ≡ n = omega arith in
        rw m (ground arith) in
      let loop =
        copy_zones-hole 0 (block_size + n) (take 5 zones) (omega arith) (omega arith)
        ∙ ap
            (λ w.
              and_then (advance block_size w) (copy_zones block (block_size + n) (take 5 zones)))
            chunk in
      ap
        (λ w.
          and_then
            (and_then (and_then w (walk_single block (block_size + n) (get_or inode.zones 7 0)))
              (walk_double block (block_size + n) (get_or inode.zones 8 0)))
            (walk_triple block (block_size + n) (get_or inode.zones 9 0)))
        (ap (λ zs. copy_zones block (block_size + n) (take 7 zs) (start 0 out)) hole ∙ loop)

-- For a file whose first zone is missing and whose second one can be read, a read into a slice of
-- less than a block, whose window ends behind the second block, faults: the second block is copied
-- whole, past the slice's end.
pub read_zones-overrun :
    (driver : Driver) (fs : Fs) (inode : Inode) (offset : ℕ) (out : List ℕ) (h : Heap) (zone : ℕ)
    (zones b : List ℕ)
    → inode.zones ≡ 0 ∷ zone ∷ zones
    → zone ≢ 0
    → zone_block driver fs h zone ≡ some b
    → 0 < wanted inode offset out
    → 2 * block_size ≤ offset + wanted inode offset out
    → length out < block_size
    → read_zones driver fs inode offset out h ≡ done (fault, h)
unfolding read_zones
read_zones-overrun driver fs inode offset out h zone zones b hole there read live large small =
    ap (λ w. done (finish w, h))
      (walk_file-overrun (zone_block driver fs h) inode zone zones b out hole there read offset
        (offset + wanted inode offset out) (omega arith) large small)

-- For a file whose first zone is missing and whose second one can be read, a read from the
-- beginning into a slice of a block and `n` bytes, with at most a block of `n` and a file of that
-- size, returns the count `n`, and the slice begins with the first `n` bytes of the second block
-- and is otherwise as it was.
pub read_zones-shift :
    (driver : Driver) (fs : Fs) (inode : Inode) (out : List ℕ) (h : Heap) (zone : ℕ)
    (zones b : List ℕ) (n : ℕ)
    → inode.zones ≡ 0 ∷ zone ∷ zones
    → zone ≢ 0
    → zone_block driver fs h zone ≡ some b
    → 0 < n
    → n ≤ block_size
    → length out ≡ block_size + n
    → block_size + n ≤ inode.size
    → read_zones driver fs inode 0 out h ≡ done (ok (n, splice out 0 (take n b)), h)
unfolding read_zones
read_zones-shift driver fs inode out h zone zones b n hole there read pos le size inside =
    let count : 0 + wanted inode 0 out ≡ block_size + n = omega arith in
    let block = zone_block driver fs h in
    ap (λ end. done (finish (walk_file block end inode (start 0 out)), h)) count
    ∙ ap (λ w. done (finish w, h))
        (walk_file-shift block inode zone zones b out hole there read n pos le size)
