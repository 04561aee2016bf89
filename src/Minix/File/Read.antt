-- ===== src/Minix/File/Read.antt =====
-- What `read_file` (src/fs/minix3/fs.rs) returns on a file without holes.
use vesper.Prelude.{
  ℕ, ◌+◌, ◌*◌, ◌^◌, ◌<◌, ◌≤◌, ◌≡◌, refl, sym, ap, ◌∙◌, Option, some, List, arith, length, take,
  get_elem?, get_elem?-lt, length-take, done,
}
use mathlib.Core.Path.{subst}
use vesper.PageFrame.{Heap}
use vesper.Minix.{Inode, FsResult, ok, Driver, block_size, num_direct_zones}
use vesper.Minix.Fs.{Fs}
use vesper.Minix.File.{
  Walk, more, stop, failed, faulted, copy_zones, walk_file, finish, start, zone_block, wanted,
  read_zones,
}
use vesper.Minix.File.Content.{zone_at, byte_at, single_base, double_base, triple_base, capacity}
use vesper.Minix.File.Zones.{Readable, At, Good, and_then-Good}
use vesper.Minix.File.Copy.{copy_zones-Good}
use vesper.Minix.File.Splice.{get_elem?-take}
use vesper.Minix.File.Pointers.{zone_at-direct}
use vesper.Minix.File.Indirect.{walk_single-Good, walk_double-Good, walk_triple-Good}

-- `out` holds the file's bytes from an offset on in its first `count` places, and is otherwise as
-- it was before.
pub record Holds (bytes : ℕ → Option ℕ) (offset count : ℕ) (before out : List ℕ) : Type 0 where
  pub size : length out ≡ length before
  pub copied : (i : ℕ) → i < count → get_elem? out i ≡ bytes (offset + i)
  pub rest : (i : ℕ) → count ≤ i → get_elem? out i ≡ get_elem? before i

module _ (block : ℕ → Option (List ℕ)) (inode : Inode) (offset end : ℕ) (out : List ℕ)
    (readable : Readable block inode offset end out) (ten : length inode.zones ≡ 10) where
  walk_file-Good :
      offset < end
      → Good
          (byte_at block inode)
          offset
          end
          out
          capacity
          (walk_file block end inode (start offset out))
  unfolding walk_file
  walk_file-Good live =
      let bytes = byte_at block inode in
      let direct = take num_direct_zones inode.zones in
      let seven : length direct ≡ 7 = omega (arith, length-take 7 inode.zones) in
      let begin : At bytes offset end out 0 (start offset out) = record {
        filled = record {
          count = omega arith;
          size = refl;
          copied = λ i lt. absurd (omega arith);
          rest = λ i le. refl;
        };
        live = live;
        place = refl;
        pos = omega arith;
      } in
      let zones : (j z : ℕ) → get_elem? direct j ≡ some z → zone_at block inode (0 + j) ≡ some z =
        λ j z e.
          let lt : j < 7 = omega (arith, get_elem?-lt direct j e) in
          ap (zone_at block inode) (omega arith)
          ∙ zone_at-direct block inode j lt
          ∙ sym (get_elem?-take 7 j inode.zones lt)
          ∙ e in
      let first : Good bytes offset end out single_base
          (copy_zones block end direct (start offset out)) =
        subst (λ l. Good bytes offset end out l (copy_zones block end direct (start offset out)))
          (omega arith)
          (copy_zones-Good block inode offset end out readable direct 0 (start offset out) zones
            begin) in
      and_then-Good bytes offset end out triple_base capacity _ _
        (and_then-Good bytes offset end out double_base triple_base _ _
          (and_then-Good bytes offset end out single_base double_base _ _ first
            (walk_single-Good block inode offset end out readable))
          (walk_double-Good block inode offset end out readable))
        (walk_triple-Good block inode offset end out readable)

-- A walk that fits into the address range of the zones returns with the window filled.
finish-Good :
    (bytes : ℕ → Option ℕ) (offset count : ℕ) (out : List ℕ) (w : Walk)
    → offset + count ≤ capacity * block_size
    → Good bytes offset (offset + count) out capacity w
    → (out' : List ℕ) × (finish w ≡ ok (count, out')) × Holds bytes offset count out out'
finish-Good bytes offset count out (more c) room at =
    absurd (omega (arith, at.live, at.pos, at.place))
finish-Good bytes offset count out (stop c) room (filled, all) =
    let n : c.written ≡ count = omega (arith, filled.count) in
    (
      c.out,
      ap (λ k. ok (k, c.out)) n,
      record {
        size = filled.size;
        copied = λ i lt. filled.copied i (omega arith);
        rest = λ i le. filled.rest i (omega arith);
      },
    )
finish-Good bytes offset count out (failed e) room bad = absurd bad
finish-Good bytes offset count out faulted room bad = absurd bad

-- With its buffers in hand, `read_file` returns the count that was asked for, cut at the file's end,
-- and the slice holds exactly those bytes of the file.
pub read_zones_lem :
    (driver : Driver) (fs : Fs) (inode : Inode) (offset : ℕ) (out : List ℕ) (h : Heap)
    → length inode.zones ≡ 10
    → inode.size < 2 ^ 32
    → offset < inode.size
    → 0 < wanted inode offset out
    → Readable (zone_block driver fs h) inode offset (offset + wanted inode offset out) out
    → (out' : List ℕ) × (read_zones driver fs inode offset out h
        ≡ done (ok (wanted inode offset out, out'), h))
      × Holds (byte_at (zone_block driver fs h) inode) offset (wanted inode offset out) out out'
unfolding read_zones
read_zones_lem driver fs inode offset out h ten small inside some_wanted readable =
    let block = zone_block driver fs h in
    let count = wanted inode offset out in
    let w = walk_file block (offset + count) inode (start offset out) in
    let good = walk_file-Good block inode offset (offset + count) out readable ten (omega arith) in
    let (out', e, holds) =
      finish-Good (byte_at block inode) offset count out w (omega arith) good in
    (out', ap (λ r. done (r, h)) e, holds)

-- The walk does not touch the heap.
pub read_zones-heap :
    (driver : Driver) (fs : Fs) (inode : Inode) (offset : ℕ) (out : List ℕ) (h : Heap)
    → (r : FsResult (ℕ × List ℕ)) × (read_zones driver fs inode offset out h ≡ done (r, h))
unfolding read_zones
read_zones-heap driver fs inode offset out h =
    let end = offset + wanted inode offset out in
    (finish (walk_file (zone_block driver fs h) end inode (start offset out)), refl)
