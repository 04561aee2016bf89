-- ===== src/Minix/File/Pointers.antt =====
-- The pointers in an indirect block (src/fs/minix3/fs.rs), and which blocks of the file they are for.
use vesper.Prelude.{
  ℕ, zero, suc, ◌+◌, ◌-◌, ◌*◌, ◌/◌, ◌%◌, ◌<◌, ◌≡◌, ◌≢◌, refl, ap, Option, some, List, arith, length,
  get_elem?, get_or, Option-cases, option_bind, ℕ_discrete, ltb, lt→ltb, true, false, inl, inr,
}
use vesper.Bytes.{u32_at}
use vesper.Minix.{Inode, words_at, indirect_ptrs_per_block}
use vesper.Minix.File.Content.{
  zone_at, pointer, pointer_2, pointer_3, single_base, double_base, triple_base,
}

pub length-words_at : (b : List ℕ) (n o : ℕ) → length (words_at b n o) ≡ n
length-words_at b zero o = refl
length-words_at b (suc n) o = ap suc (length-words_at b n (o + 4))

pub get_elem?-words_at :
    (b : List ℕ) (n o j z : ℕ)
    → get_elem? (words_at b n o) j ≡ some z
    → (j < n) × (z ≡ u32_at b (o + j * 4))
get_elem?-words_at b zero o j z e = absurd (cc)
get_elem?-words_at b (suc n) o zero z e =
    let at : o + 0 * 4 ≡ o = omega arith in (omega arith, rw at (cc))
get_elem?-words_at b (suc n) o (suc j) z e =
    let (lt, is) = get_elem?-words_at b n (o + 4) j z e in
    let at : o + suc j * 4 ≡ o + 4 + j * 4 = omega arith in (omega arith, rw at is)

module _ (block : ℕ → Option (List ℕ)) where
  -- An indirect block that has one pointer has them all.
  pub pointer-some :
      (z i w : ℕ)
      → pointer block z i ≡ some w
      → (b : List ℕ) × (z ≢ 0)
        × (block z ≡ some b)
        × ((j : ℕ) → pointer block z j ≡ some (u32_at b (j * 4)))
  pointer-some z i w e = elim (ℕ_discrete z 0) [
    | yes missing ↦ ground arith
    | no there ↦ elim (Option-cases (block z)) [
      | inl unread ↦ ground arith
      | inr (b, read) ↦ (b, there, read, λ j. ground arith)
    ]
  ]

  module _ (inode : Inode) where
    pub zone_at-direct : (j : ℕ) → j < single_base → zone_at block inode j ≡ get_elem? inode.zones j
    unfolding zone_at
    zone_at-direct j lt = rw (lt→ltb j single_base lt)

    pub zone_at-single :
        (j : ℕ)
        → j < indirect_ptrs_per_block
        → zone_at block inode (single_base + j) ≡ pointer block (get_or inode.zones 7 0) j
    unfolding zone_at
    zone_at-single j lt =
        let one : ltb (single_base + j) single_base ≡ false = ground arith in
        let two : ltb (single_base + j) double_base ≡ true = ground arith in
        let index : single_base + j - single_base ≡ j = omega arith in rw (one, two, index)

    pub zone_at-double :
        (m : ℕ)
        → m < indirect_ptrs_per_block * indirect_ptrs_per_block
        → zone_at block inode (double_base + m) ≡ pointer_2 block (get_or inode.zones 8 0) m
    unfolding zone_at
    zone_at-double m lt =
        let one : ltb (double_base + m) single_base ≡ false = ground arith in
        let two : ltb (double_base + m) double_base ≡ false = ground arith in
        let three : ltb (double_base + m) triple_base ≡ true = ground arith in
        let index : double_base + m - double_base ≡ m = omega arith in rw (one, two, three, index)

    pub zone_at-triple :
        (m : ℕ) → zone_at block inode (triple_base + m) ≡ pointer_3 block (get_or inode.zones 9 0) m
    unfolding zone_at
    zone_at-triple m =
        let one : ltb (triple_base + m) single_base ≡ false = ground arith in
        let two : ltb (triple_base + m) double_base ≡ false = ground arith in
        let three : ltb (triple_base + m) triple_base ≡ false = ground arith in
        let index : triple_base + m - triple_base ≡ m = omega arith in rw (one, two, three, index)

  -- The pointers behind one pointer of a double or triple indirect zone.
  pub pointer_2-at :
      (z i j d : ℕ)
      → j < indirect_ptrs_per_block
      → pointer block z i ≡ some d
      → pointer_2 block z (i * indirect_ptrs_per_block + j) ≡ pointer block d j
  pointer_2-at z i j d lt e =
      let q : (i * indirect_ptrs_per_block + j) / indirect_ptrs_per_block ≡ i = omega arith in
      let r : (i * indirect_ptrs_per_block + j) % indirect_ptrs_per_block ≡ j = omega arith in
      rw (q, r) (ap (λ o. option_bind o (λ d. pointer block d j)) e)

  pub pointer_3-at :
      (z i m t : ℕ)
      → m < indirect_ptrs_per_block * indirect_ptrs_per_block
      → pointer block z i ≡ some t
      → pointer_3 block z (i * (indirect_ptrs_per_block * indirect_ptrs_per_block) + m)
        ≡ pointer_2 block t m
  pointer_3-at z i m t lt e =
      let q : (i * (indirect_ptrs_per_block * indirect_ptrs_per_block) + m)
            / (indirect_ptrs_per_block * indirect_ptrs_per_block)
          ≡ i =
        omega arith in
      let r : (i * (indirect_ptrs_per_block * indirect_ptrs_per_block) + m)
            % (indirect_ptrs_per_block * indirect_ptrs_per_block)
          ≡ m =
        omega arith in
      rw (q, r) (ap (λ o. option_bind o (λ t. pointer_2 block t m)) e)
