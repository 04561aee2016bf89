-- ===== src/Minix/File/Copy.antt =====
-- The closure `copy_zone` of `read_file` (src/fs/minix3/fs.rs) at a block that is there, and the loop over
-- such blocks.
use vesper.Prelude.{
  ℕ, suc, ◌+◌, ◌-◌, ◌*◌, ◌<◌, ◌≤◌, ◌≡◌, refl, sym, ap, ◌∙◌, Option, some, List, [], ◌∷◌, arith, min,
  length, take, drop, get_elem?, true, false, ltb, leb, ◌==◌, dec_lt, dec_le,
}
use vesper.Minix.{Inode, block_size}
use vesper.Minix.File.{Cursor, splice, copy_zone, copy_zones, copy_chunk, going, advance}
use vesper.Minix.File.Content.{zone_at, byte_at}
use vesper.Minix.File.Splice.{
  get_elem?-piece, length-piece, length-splice, splice-before, splice-inside, splice-behind,
}
use vesper.Minix.File.Zones.{
  Readable, Present, Filled, At, Good, Filled-skip_bytes, and_then-Good, present,
}

-- What the copy of one chunk leaves.
abbrev chunk_of : ℕ → Cursor → ℕ
chunk_of end c = min (block_size - (c.cur_offset - c.logical)) (end - c.cur_offset)

abbrev copied_chunk : ℕ → Cursor → List ℕ → Cursor
copied_chunk end c b = record c {
  out = splice c.out c.written (take (chunk_of end c) (drop (c.cur_offset - c.logical) b));
  written = c.written + chunk_of end c;
  cur_offset = c.cur_offset + chunk_of end c;
}

module _ (bytes : ℕ → Option ℕ) (offset end : ℕ) (out : List ℕ)
    (fits : end ≤ offset + length out) where
  module _ (k : ℕ) (c : Cursor) (b : List ℕ) (at : At bytes offset end out k c)
      (whole : length b ≡ block_size) (inside : c.cur_offset < c.logical + block_size)
      (same : (j : ℕ) → j < block_size → bytes (k * block_size + j) ≡ get_elem? b j) where
    chunk-Filled : Filled bytes offset out (copied_chunk end c b)
    chunk-Filled =
        let m = c.cur_offset - c.logical in
        let n = chunk_of end c in
        let src = take n (drop m b) in
        let f = at.filled in
        let len : length src ≡ n = length-piece m n b (omega (arith, at.pos)) in
        record {
          count = omega (arith, f.count);
          size = length-splice c.out c.written src ∙ f.size;
          copied = λ i lt. elim (dec_lt i c.written) [
            | yes old ↦ splice-before c.out c.written src i old ∙ f.copied i old
            | no new ↦
                let j = i - c.written in
                let at_i : i ≡ c.written + j = omega arith in
                let near : j < n = omega arith in
                let from : k * block_size + (m + j) ≡ offset + i =
                  omega (arith, f.count, at.pos, at.place) in
                ap (get_elem? (splice c.out c.written src)) at_i
                ∙ splice-inside c.out c.written src j (omega (arith, len))
                    (omega (arith, f.size, f.count, at.live))
                ∙ get_elem?-piece m n j b near
                ∙ sym (same (m + j) (omega arith))
                ∙ ap bytes from
          ];
          rest = λ i le.
              splice-behind c.out c.written src i (omega (arith, len)) ∙ f.rest i (omega arith);
        }

    copy_chunk-eq : copy_chunk end c b ≡ going end (copied_chunk end c b)
    copy_chunk-eq = ground (arith, at.filled.size, at.filled.count, at.live, at.pos)

    copy_chunk-Good : Good bytes offset end out (k + 1) (advance block_size (copy_chunk end c b))
    copy_chunk-Good =
        let filled = chunk-Filled in
        let next = copied_chunk end c b in
        rw copy_chunk-eq (elim (dec_lt next.cur_offset end) [
          | yes on ↦
              let test : ltb next.cur_offset end ≡ true = ground arith in
              rw test (record {
                filled = Filled-skip_bytes block_size filled;
                live = on;
                place = omega (arith, at.place);
                pos = omega (arith, at.pos);
              })
          | no over ↦
              let test : ltb next.cur_offset end ≡ false = ground arith in
              rw test (filled, omega (arith, at.live))
        ])

  -- The closure copies the rest of the window or of the block, whichever ends first.
  pub copy_zone-Good :
      (block : ℕ → Option (List ℕ)) (inode : Inode) (k : ℕ) (c : Cursor)
      → ((j : ℕ) → byte_at block inode j ≡ bytes j)
      → At bytes offset end out k c
      → (p : Present block inode k) → length p.bytes ≡ block_size
      → Good bytes offset end out (k + 1) (advance block_size (copy_zone block end p.zone c))
  unfolding copy_zone
  copy_zone-Good block inode k c is at p whole =
      let there : (p.zone == 0) ≡ false = ground (arith, p.nonzero) in
      elim (dec_le (c.logical + block_size) c.cur_offset) [
        | yes skip ↦
            let test : leb (c.logical + block_size) c.cur_offset ≡ true = ground arith in
            rw (there, test)
              (record {
                filled = Filled-skip_bytes block_size at.filled;
                live = at.live;
                place = omega (arith, at.place);
                pos = omega (arith, at.pos);
              })
        | no copy ↦
            let test : leb (c.logical + block_size) c.cur_offset ≡ false = ground arith in
            rw (there, test, p.read)
              (copy_chunk-Good k c p.bytes at whole (omega arith)
                (λ j lt. sym (is _) ∙ p.same j lt))
      ]

module _ (block : ℕ → Option (List ℕ)) (inode : Inode) (offset end : ℕ) (out : List ℕ)
    (readable : Readable block inode offset end out) where
  -- The block at which the walk goes on is there.
  pub At-Present :
      (k : ℕ) (c : Cursor) → At (byte_at block inode) offset end out k c → Present block inode k
  At-Present k c at =
      let (v, e) =
        readable.mapped (k * block_size + 0) (omega (arith, at.live, at.pos, at.place)) in
      present block inode k v e

  -- The loop over zone numbers that are those of the blocks from `k` on.
  pub copy_zones-Good :
      (zs : List ℕ) (k : ℕ) (c : Cursor)
      → ((j z : ℕ) → get_elem? zs j ≡ some z → zone_at block inode (k + j) ≡ some z)
      → At (byte_at block inode) offset end out k c
      → Good (byte_at block inode) offset end out (k + length zs) (copy_zones block end zs c)
  unfolding copy_zones
  copy_zones-Good [] k c zones at = let e : k + 0 ≡ k = omega arith in rw e at
  copy_zones-Good (z ∷ zs) k c zones at =
      let p = At-Present k c at in
      let first : zone_at block inode k ≡ some z =
        ap (zone_at block inode) (omega arith) ∙ zones 0 z refl in
      let same : p.zone ≡ z = cc (p.here, first) in
      let going_on : leb end c.cur_offset ≡ false = ground (arith, at.live) in
      let others : (j y : ℕ) → get_elem? zs j ≡ some y → zone_at block inode (k + 1 + j) ≡ some y =
        λ j y h. ap (zone_at block inode) (omega arith) ∙ zones (suc j) y h in
      let l : k + suc (length zs) ≡ k + 1 + length zs = omega arith in
      rw (going_on, l)
        (and_then-Good (byte_at block inode) offset end out (k + 1) (k + 1 + length zs)
          (advance block_size (copy_zone block end z c)) (copy_zones block end zs)
          (rw same at (
            copy_zone-Good (byte_at block inode) offset end out readable.fits block inode k c
              (λ j. refl) at p (readable.sized p.zone p.bytes p.read)))
          (λ c' at'. copy_zones-Good zs (k + 1) c' others at'))
