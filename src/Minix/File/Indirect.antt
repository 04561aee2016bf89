-- ===== src/Minix/File/Indirect.antt =====
-- The walks of `read_file` (src/fs/minix3/fs.rs) over the indirect zones, on a file without holes.
use vesper.Prelude.{
  ℕ, suc, ◌+◌, ◌*◌, ◌<◌, ◌≡◌, ◌≢◌, refl, sym, ap, ◌∙◌, Option, some, List, [], ◌∷◌, arith, length,
  get_elem?, get_or, lt→ltb, ne→==, option_bind-some, ltb, Bool, true, false, ◌==◌,
}
use mathlib.Core.Path.{subst}
use vesper.Bytes.{u32_at}
use vesper.Minix.{Inode, words_at, indirect_ptrs_per_block}
use vesper.Minix.File.{
  Cursor, Walk, copy_zones, walk_single, walk_dptrs, walk_double, walk_tptrs, walk_triple, and_then,
}
use vesper.Minix.File.Content.{
  zone_at, byte_at, pointer, pointer_2, pointer_3, single_base, double_base, triple_base, capacity,
}
use vesper.Minix.File.Zones.{Readable, At, Good, and_then-Good}
use vesper.Minix.File.Copy.{At-Present, copy_zones-Good}
use vesper.Minix.File.Pointers.{
  length-words_at, get_elem?-words_at, pointer-some, zone_at-single, zone_at-double, zone_at-triple,
  pointer_2-at, pointer_3-at,
}

abbrev n : ℕ
n = indirect_ptrs_per_block

module _ (block : ℕ → Option (List ℕ)) (inode : Inode) (offset end : ℕ) (out : List ℕ)
    (readable : Readable block inode offset end out) where
  abbrev GoodFrom : ℕ → Walk → Type 0
  GoodFrom k w = Good (byte_at block inode) offset end out k w

  abbrev AtBlock : ℕ → Cursor → Type 0
  AtBlock k c = At (byte_at block inode) offset end out k c

  -- The blocks from `k` on are those that the indirect zone `d` points to.
  abbrev Points : ℕ → ℕ → Type 0
  Points k d = (j : ℕ) → j < n → zone_at block inode (k + j) ≡ pointer block d j

  -- One indirect block is there, and its zones are copied.
  copy_pointers :
      (k d : ℕ) (c : Cursor)
      → Points k d
      → AtBlock k c
      → (b : List ℕ) × (d ≢ 0)
        × (block d ≡ some b)
        × GoodFrom (k + n) (copy_zones block end (words_at b n 0) c)
  copy_pointers k d c points at =
      let p = At-Present block inode offset end out readable k c at in
      let first : pointer block d 0 ≡ some p.zone =
        sym (points 0 (omega arith)) ∙ ap (zone_at block inode) (omega arith) ∙ p.here in
      let (b, there, read, entries) = pointer-some block d 0 p.zone first in
      let ptrs = words_at b n 0 in
      let zones : (j z : ℕ) → get_elem? ptrs j ≡ some z → zone_at block inode (k + j) ≡ some z =
        λ j z e.
          let (lt, is) = get_elem?-words_at b n 0 j z e in
          points j lt ∙ entries j ∙ ap (λ o. some (u32_at b o)) (omega arith) ∙ ap some (sym is) in
      let size : k + length ptrs ≡ k + n = ap (λ l. k + l) (length-words_at b n 0) in
      (
        b,
        there,
        read,
        rw (← size) (copy_zones-Good block inode offset end out readable ptrs k c zones at),
      )

  pub walk_single-Good :
      (c : Cursor)
      → AtBlock single_base c
      → GoodFrom double_base (walk_single block end (get_or inode.zones 7 0) c)
  unfolding walk_single
  walk_single-Good c at =
      let (b, there, read, good) =
        copy_pointers single_base (get_or inode.zones 7 0) c (zone_at-single block inode) at in
      let live : ltb c.cur_offset end ≡ true = lt→ltb _ _ at.live in
      let here : (get_or inode.zones 7 0 == 0) ≡ false = ne→== _ _ there in
      rw (live, here, read) good

  -- The loop over pointers to indirect blocks; entry `i` of the list is for `n` blocks.
  walk_dptrs-Good :
      (breaks : Bool) (ds : List ℕ) (k : ℕ) (c : Cursor)
      → ((i d : ℕ) → get_elem? ds i ≡ some d → Points (k + i * n) d)
      → AtBlock k c
      → GoodFrom (k + length ds * n) (walk_dptrs block end breaks ds c)
  unfolding walk_dptrs
  walk_dptrs-Good breaks [] k c points at = let e : k + 0 * n ≡ k = omega arith in rw e at
  walk_dptrs-Good breaks (d ∷ ds) k c points at =
      let e : k + suc (length ds) * n ≡ k + n + length ds * n = omega arith in
      let start : k + 0 * n ≡ k = omega arith in
      let (b, there, read, good) = copy_pointers k d c (rw start at (points 0 d refl)) at in
      let here : (d == 0) ≡ false = ne→== _ _ there in
      let others : (i d' : ℕ) → get_elem? ds i ≡ some d' → Points (k + n + i * n) d' = λ i d' h.
        let shift : k + suc i * n ≡ k + n + i * n = omega arith in
        rw shift at (points (suc i) d' h) in
      rw (here, read, e)
        (and_then-Good (byte_at block inode) offset end out (k + n) (k + n + length ds * n)
          (copy_zones block end (words_at b n 0) c) (walk_dptrs block end breaks ds) good
          (λ c' at'. walk_dptrs-Good breaks ds (k + n) c' others at'))

  -- The blocks from `k` on are those that the double indirect zone `t` leads to.
  abbrev PointsTwo : ℕ → ℕ → Type 0
  PointsTwo k t = (m : ℕ) → m < n * n → zone_at block inode (k + m) ≡ pointer_2 block t m

  -- One double indirect block is there, and the zones behind it are copied.
  copy_pointers_2 :
      (breaks : Bool) (k t : ℕ) (c : Cursor)
      → PointsTwo k t
      → AtBlock k c
      → (b : List ℕ) × (t ≢ 0)
        × (block t ≡ some b)
        × GoodFrom (k + n * n) (walk_dptrs block end breaks (words_at b n 0) c)
  copy_pointers_2 breaks k t c points at =
      let p = At-Present block inode offset end out readable k c at in
      let first : pointer_2 block t 0 ≡ some p.zone =
        sym (points 0 (omega arith)) ∙ ap (zone_at block inode) (omega arith) ∙ p.here in
      let (d, entry, _) = option_bind-some (pointer block t 0) (λ d. pointer block d 0) first in
      let (b, there, read, entries) = pointer-some block t 0 d entry in
      let ptrs = words_at b n 0 in
      let behind : (i d : ℕ) → get_elem? ptrs i ≡ some d → Points (k + i * n) d = λ i d e j lt.
        let (small, is) = get_elem?-words_at b n 0 i d e in
        let at_i : pointer block t i ≡ some d =
          entries i ∙ ap (λ o. some (u32_at b o)) (omega arith) ∙ ap some (sym is) in
        ap (zone_at block inode) (omega arith)
        ∙ points (i * n + j) (omega arith)
        ∙ pointer_2-at block t i j d lt at_i in
      let size : k + length ptrs * n ≡ k + n * n = ap (λ l. k + l * n) (length-words_at b n 0) in
      (b, there, read, rw (← size) (walk_dptrs-Good breaks ptrs k c behind at))

  pub walk_double-Good :
      (c : Cursor)
      → AtBlock double_base c
      → GoodFrom triple_base (walk_double block end (get_or inode.zones 8 0) c)
  unfolding walk_double
  walk_double-Good c at =
      let (b, there, read, good) =
        copy_pointers_2 true double_base (get_or inode.zones 8 0) c (zone_at-double block inode)
          at in
      let live : ltb c.cur_offset end ≡ true = lt→ltb _ _ at.live in
      let here : (get_or inode.zones 8 0 == 0) ≡ false = ne→== _ _ there in
      rw (live, here, read) good

  -- The loop over pointers to double indirect blocks.
  walk_tptrs-Good :
      (ts : List ℕ) (k : ℕ) (c : Cursor)
      → ((i t : ℕ) → get_elem? ts i ≡ some t → PointsTwo (k + i * (n * n)) t)
      → AtBlock k c
      → GoodFrom (k + length ts * (n * n)) (walk_tptrs block end ts c)
  unfolding walk_tptrs
  walk_tptrs-Good [] k c points at = let e : k + 0 * (n * n) ≡ k = omega arith in rw e at
  walk_tptrs-Good (t ∷ ts) k c points at =
      let e : k + suc (length ts) * (n * n) ≡ k + n * n + length ts * (n * n) = omega arith in
      let start : k + 0 * (n * n) ≡ k = omega arith in
      let (b, there, read, good) = copy_pointers_2 false k t c (rw start at (points 0 t refl)) at in
      let here : (t == 0) ≡ false = ne→== _ _ there in
      let others : (i t' : ℕ) → get_elem? ts i ≡ some t' → PointsTwo (k + n * n + i * (n * n)) t' =
        λ i t' h.
          let shift : k + suc i * (n * n) ≡ k + n * n + i * (n * n) = omega arith in
          rw shift at (points (suc i) t' h) in
      let first = walk_dptrs block end false (words_at b n 0) c in
      rw (here, read)
        (subst (λ l. GoodFrom l (and_then first (walk_tptrs block end ts))) (sym e)
          (and_then-Good (byte_at block inode) offset end out (k + n * n)
            (k + n * n + length ts * (n * n)) first (walk_tptrs block end ts) good
            (λ c' at'. walk_tptrs-Good ts (k + n * n) c' others at')))

  pub walk_triple-Good :
      (c : Cursor)
      → AtBlock triple_base c
      → GoodFrom capacity (walk_triple block end (get_or inode.zones 9 0) c)
  unfolding walk_triple
  walk_triple-Good c at =
      let z = get_or inode.zones 9 0 in
      let p = At-Present block inode offset end out readable triple_base c at in
      let first : pointer_3 block z 0 ≡ some p.zone =
        sym (zone_at-triple block inode 0) ∙ ap (zone_at block inode) (omega arith) ∙ p.here in
      let (t, entry, _) = option_bind-some (pointer block z 0) (λ t. pointer_2 block t 0) first in
      let (b, there, read, entries) = pointer-some block z 0 t entry in
      let ptrs = words_at b n 0 in
      let behind : (i t : ℕ) → get_elem? ptrs i ≡ some t → PointsTwo (triple_base + i * (n * n)) t =
        λ i t e m lt.
          let (small, is) = get_elem?-words_at b n 0 i t e in
          let at_i : pointer block z i ≡ some t =
            entries i ∙ ap (λ o. some (u32_at b o)) (omega arith) ∙ ap some (sym is) in
          ap (zone_at block inode) (omega arith)
          ∙ zone_at-triple block inode (i * (n * n) + m)
          ∙ pointer_3-at block z i m t lt at_i in
      let live : ltb c.cur_offset end ≡ true = lt→ltb _ _ at.live in
      let here : (z == 0) ≡ false = ne→== _ _ there in
      let size : triple_base + length ptrs * (n * n) ≡ capacity =
        ap (λ l. triple_base + l * (n * n)) (length-words_at b n 0) in
      rw (live, here, read)
        (subst (λ l. GoodFrom l (walk_tptrs block end ptrs c)) size
          (walk_tptrs-Good ptrs triple_base c behind at))
