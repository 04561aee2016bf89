-- ===== src/Sv39/Leaf.antt =====
-- A leaf of src/mm/paging/sv39/map.rs: the entry that `map` writes, and the address that `v2p` reads from it.
use vesper.Prelude.{
  ℕ, zero, suc, ◌+◌, ◌*◌, ◌/◌, ◌%◌, ◌^◌, ◌<◌, ◌≤◌, ◌≡◌, ◌≢◌, refl, ap, ◌∙◌, bit_and, bit_or, true,
  not, arith, ◌==◌, ne→==,
}
use vesper.Prelude.Bits.{bit_or-fields, bit_and-low, bit_and-halve}
use vesper.Prelude.Masks.{bit_and-mask, bit_or-combine, bit_or-one}
use vesper.PageFrame.{usize}
use vesper.Sv39.PteFlags
use vesper.Sv39.{is_valid, is_leaf, leaf, leaf_addr}

-- The entry of a leaf: the page number above bit 10, and the flags with the valid bit.
leaf-eq :
    (paddr bits : ℕ)
    → bits < 2 ^ 10
    → leaf paddr bits ≡ paddr / 2 ^ 12 % 2 ^ 44 * 2 ^ 10 + (bits / 2 * 2 + 1)
unfolding leaf
leaf-eq paddr bits small =
    let a = paddr / 2 ^ 30 in
    let b = paddr / 2 ^ 21 in
    let c = paddr / 2 ^ 12 in
    let x = a % 2 ^ 26 * 2 ^ 18 + b % 2 ^ 9 * 2 ^ 9 + c % 2 ^ 9 in
    let page : x ≡ c % 2 ^ 44 = omega arith in
    let two : bit_or (a % 2 ^ 26 * 2 ^ 28) (b % 2 ^ 9 * 2 ^ 19)
        ≡ (a % 2 ^ 26 * 2 ^ 9 + b % 2 ^ 9) * 2 ^ 19 =
      bit_or-fields 28 (a % 2 ^ 26) (b % 2 ^ 9 * 2 ^ 19) (omega arith) ∙ omega arith in
    let three : bit_or ((a % 2 ^ 26 * 2 ^ 9 + b % 2 ^ 9) * 2 ^ 19) (c % 2 ^ 9 * 2 ^ 10)
        ≡ x * 2 ^ 10 =
      bit_or-fields 19 (a % 2 ^ 26 * 2 ^ 9 + b % 2 ^ 9) (c % 2 ^ 9 * 2 ^ 10) (omega arith)
      ∙ omega arith in
    ap
      (λ p.
        bit_or
          (bit_or
            (bit_or (bit_or (p * 2 ^ 28) (bit_and b 0x1ff * 2 ^ 19)) (bit_and c 0x1ff * 2 ^ 10))
            bits)
          1)
      (bit_and-mask 26 a)
    ∙ ap
        (λ p.
          bit_or
            (bit_or (bit_or (bit_or (a % 2 ^ 26 * 2 ^ 28) (p * 2 ^ 19)) (bit_and c 0x1ff * 2 ^ 10))
              bits)
            1)
        (bit_and-mask 9 b)
    ∙ ap
        (λ p.
          bit_or
            (bit_or (bit_or (bit_or (a % 2 ^ 26 * 2 ^ 28) (b % 2 ^ 9 * 2 ^ 19)) (p * 2 ^ 10)) bits)
            1)
        (bit_and-mask 9 c)
    ∙ ap (λ p. bit_or (bit_or (bit_or p (c % 2 ^ 9 * 2 ^ 10)) bits) 1) two
    ∙ ap (λ p. bit_or (bit_or p bits) 1) three
    ∙ ap (λ p. bit_or p 1) (bit_or-fields 10 x bits small)
    ∙ bit_or-one (x * 2 ^ 10 + bits)
    ∙ omega (arith, page)

-- The valid bit is set.
pub leaf-is_valid : (paddr bits : ℕ) → bits < 2 ^ 10 → is_valid (leaf paddr bits) ≡ true
unfolding is_valid
leaf-is_valid paddr bits small =
    let one : bit_and (leaf paddr bits) 1 ≡ 1 =
      bit_and-mask 1 (leaf paddr bits) ∙ omega (arith, leaf-eq paddr bits small) in
    rw one refl

-- The permissions are those that were asked for.
leaf-rwx :
    (paddr bits : ℕ)
    → bits < 2 ^ 10
    → bit_and (leaf paddr bits) PteFlags.rwx ≡ bit_and bits PteFlags.rwx
leaf-rwx paddr bits small =
    let low = bits / 2 * 2 + 1 in
    ap (λ e. bit_and e PteFlags.rwx) (leaf-eq paddr bits small)
    ∙ bit_and-low 10 (paddr / 2 ^ 12 % 2 ^ 44) low PteFlags.rwx (omega arith) (omega arith)
    ∙ bit_and-halve low PteFlags.rwx
    ∙ (let half : low / 2 ≡ bits / 2 = omega arith in
        rw half (omega (arith, bit_and-halve bits PteFlags.rwx)))

pub leaf-is_leaf :
    (paddr bits : ℕ)
    → bits < 2 ^ 10
    → bit_and bits PteFlags.rwx ≢ 0
    → is_leaf (leaf paddr bits) ≡ true
unfolding is_leaf
leaf-is_leaf paddr bits small some_rwx =
    ap (λ r. not (r == 0)) (leaf-rwx paddr bits small) ∙ ap not (ne→== _ _ some_rwx)

module _ (paddr bits vaddr : ℕ) (small : bits < 2 ^ 10) where
  leaf_addr-0 :
      leaf_addr 0 vaddr (leaf paddr bits) ≡ paddr % 2 ^ 56 / 2 ^ 12 * 2 ^ 12 + vaddr % 2 ^ 12
  unfolding leaf_addr
  leaf_addr-0 =
      let e = leaf paddr bits in
      bit_or-combine 52 12 (usize (e * 4)) vaddr (omega arith)
      ∙ omega (arith, leaf-eq paddr bits small)

  leaf_addr-1 :
      leaf_addr 1 vaddr (leaf paddr bits) ≡ paddr % 2 ^ 56 / 2 ^ 21 * 2 ^ 21 + vaddr % 2 ^ 21
  unfolding leaf_addr
  leaf_addr-1 =
      let e = leaf paddr bits in
      bit_or-combine 43 21 (usize (e * 4)) vaddr (omega arith)
      ∙ omega (arith, leaf-eq paddr bits small)

  leaf_addr-2 :
      leaf_addr 2 vaddr (leaf paddr bits) ≡ paddr % 2 ^ 56 / 2 ^ 30 * 2 ^ 30 + vaddr % 2 ^ 30
  unfolding leaf_addr
  leaf_addr-2 =
      let e = leaf paddr bits in
      bit_or-combine 34 30 (usize (e * 4)) vaddr (omega arith)
      ∙ omega (arith, leaf-eq paddr bits small)

-- The bytes that a leaf at a level covers.
abbrev pub leaf_size : ℕ → ℕ
leaf_size level = 2 ^ (12 + 9 * level)

-- The address of a leaf: the frame from `paddr`, of which 56 bits count, and the place in it from
-- `vaddr`.
pub leaf_addr-leaf :
    (level paddr bits vaddr : ℕ)
    → bits < 2 ^ 10
    → level ≤ 2
    → leaf_addr level vaddr (leaf paddr bits)
      ≡ paddr % 2 ^ 56 / leaf_size level * leaf_size level + vaddr % leaf_size level
leaf_addr-leaf zero paddr bits vaddr small le = leaf_addr-0 paddr bits vaddr small
leaf_addr-leaf (suc zero) paddr bits vaddr small le = leaf_addr-1 paddr bits vaddr small
leaf_addr-leaf (suc (suc zero)) paddr bits vaddr small le = leaf_addr-2 paddr bits vaddr small
leaf_addr-leaf (suc (suc (suc level))) paddr bits vaddr small le = absurd (omega arith)
