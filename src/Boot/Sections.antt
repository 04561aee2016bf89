-- ===== src/Boot/Sections.antt =====
-- `map_section` and `make_satp_sv39`: the pages of a section, and the root table in `satp`.
use vesper.Prelude.{ℕ, ◌+◌, ◌-◌, ◌*◌, ◌/◌, ◌%◌, ◌^◌, ◌<◌, ◌≤◌, ◌≡◌, refl, arith, bit_or, ==_iff}
use vesper.Prelude.Bits.{bit_or-fields}
use vesper.Prelude.Masks.{bit_and-clear}
use vesper.PageFrame.{usize, page_size}
use vesper.Sv39.{Space, id_map_range, id_map_from}
use vesper.Boot.{align_down, align_up, map_section, make_satp_sv39}

align_down-page : (addr : ℕ) → addr < 2 ^ 64 → align_down addr page_size ≡ addr / 2 ^ 12 * 2 ^ 12
unfolding align_down
align_down-page addr lt = bit_and-clear 52 12 addr (omega arith)

-- The pages of a section in 64 bits, whose end can be rounded up within them, are mapped one after
-- another, without a panic of the alignment check: from the page of its first byte on, and as many as
-- it takes to cover its last one, with less than a page beyond the section on either side.
pub map_section-pages :
    (root start end bits : ℕ) (s : Space)
    → start ≤ end
    → end + page_size ≤ 2 ^ 64
    → (low pages : ℕ) × (map_section root start end bits s ≡ id_map_from root bits low pages s)
      × (low % page_size ≡ 0)
      × (low ≤ start)
      × (start < low + page_size)
      × (end ≤ low + pages * page_size)
      × (low + pages * page_size < end + page_size)
unfolding map_section align_up id_map_range
map_section-pages root start end bits s le fits =
    let low = start / 2 ^ 12 * 2 ^ 12 in
    let high = (end + page_size - 1) / page_size * page_size in
    let down : align_down start page_size ≡ low = align_down-page start (omega arith) in
    let small : usize high ≡ high = omega arith in
    let even : low % page_size ≡ 0 = omega arith in
    let even' : high % page_size ≡ 0 = omega arith in
    (
      low,
      (high - low) / page_size,
      rw (small, (==_iff high high).1 refl) (rw (even', down) (rw even refl)),
      even,
      omega arith,
      omega arith,
      omega arith,
      omega arith,
    )

-- `satp` of a root table at a page of the low 56 bits: mode 8 in the top four bits, and the table's page
-- number in the low 44.
pub make_satp_sv39-fields :
    (root : ℕ)
    → root < 2 ^ 56
    → (make_satp_sv39 root / 2 ^ 60 ≡ 8) × (make_satp_sv39 root % 2 ^ 44 ≡ root / 2 ^ 12)
unfolding make_satp_sv39
make_satp_sv39-fields root lt =
    let joined : bit_or (8 * 2 ^ 60) (root / 2 ^ 12) ≡ 8 * 2 ^ 60 + root / 2 ^ 12 =
      bit_or-fields 60 8 (root / 2 ^ 12) (omega arith) in
    (omega (arith, joined), omega (arith, joined))
