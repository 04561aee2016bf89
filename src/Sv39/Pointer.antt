-- ===== src/Sv39/Pointer.antt =====
-- The entry of src/mm/paging/sv39/map.rs that points at a table.
use vesper.Prelude.{
  ℕ, ◌+◌, ◌-◌, ◌*◌, ◌/◌, ◌^◌, ◌≡◌, refl, ap, ◌∙◌, bit_and, bit_or, true, false, arith,
}
use vesper.Prelude.Bits.{bit_or-fields, bit_and-low}
use vesper.Prelude.Masks.{bit_and-mask, bit_and-clear}
use vesper.PageFrame.{page_size}
use vesper.Sv39.PteFlags
use vesper.Sv39.{is_valid, is_leaf, pte_to_addr, shift_right_2}
use vesper.Sv39.Tree.{IsFrame}

-- The entry that points at a table.
abbrev pub pointer : ℕ → ℕ
pointer c = bit_or (shift_right_2 c) PteFlags.valid

pointer-eq : {c : ℕ} → IsFrame c → pointer c ≡ c / page_size * 2 ^ 10 + 1
pointer-eq {c} f =
    let half : shift_right_2 c ≡ c / page_size * 2 ^ 10 = ground (arith, f.aligned, f.low) in
    ap (λ e. bit_or e 1) half ∙ bit_or-fields 10 (c / page_size) 1 (omega arith)

pub pointer-is_valid : {c : ℕ} → IsFrame c → is_valid (pointer c) ≡ true
unfolding is_valid
pointer-is_valid {c} f =
    let one : bit_and (pointer c) 1 ≡ 1 =
      bit_and-mask 1 (pointer c) ∙ omega (arith, pointer-eq f) in
    rw one refl

pub pointer-is_leaf : {c : ℕ} → IsFrame c → is_leaf (pointer c) ≡ false
unfolding is_leaf
pointer-is_leaf {c} f =
    let none_set : bit_and (pointer c) PteFlags.rwx ≡ 0 =
      ap (λ e. bit_and e PteFlags.rwx) (pointer-eq f)
      ∙ bit_and-low 10 (c / page_size) 1 PteFlags.rwx (omega arith) (omega arith) in
    rw none_set refl

pub pte_to_addr-pointer : {c : ℕ} → IsFrame c → pte_to_addr (pointer c) ≡ c
pte_to_addr-pointer {c} f =
    let cleared : bit_and (pointer c) (2 ^ 64 - 2 ^ 10) ≡ pointer c / 2 ^ 10 * 2 ^ 10 =
      bit_and-clear 54 10 (pointer c) (omega (arith, pointer-eq f, f.low)) in
    omega (arith, cleared, pointer-eq f, f.low, f.aligned)
