-- ===== src/Elf/Tests.antt =====
-- A header with one program header behind it, and one whose entries are said to have no size, run through
-- src/exec/elf.rs.
use vesper.Prelude.{
  ℕ, zero, suc, ◌+◌, ◌*◌, ◌≤◌, ◌≡◌, ◌↔◌, refl, some, none, List, [], ◌∷◌, ◌++◌, arith, length,
  get_elem?,
}
use vesper.Elf.{
  header_size, program_header_size, decode_header, decode_program_header, parsed, parse,
  program_headers,
}
use vesper.Elf.Parse.{Accepts, parse-Accepts}
use vesper.Elf.Walk.{program_headers-parse, program_headers-overrun}

abbrev zeros : ℕ → List ℕ
zeros zero = []
zeros (suc n) = 0 ∷ zeros n

-- A header for one entry of a size, whose table begins behind the header.
abbrev image : ℕ → List ℕ
image phentsize =
    (0x7f ∷ 0x45 ∷ 0x4c ∷ 0x46 ∷ [])
    ++ (zeros 12
        ++ ((2 ∷ 0 ∷ 0xf3 ∷ 0 ∷ [])
            ++ (zeros 12
                ++ ((64 ∷ []) ++ (zeros 21 ++ ((phentsize ∷ 0 ∷ 1 ∷ 0 ∷ []) ++ zeros 6))))))

abbrev whole : List ℕ
whole = image 56 ++ ((1 ∷ []) ++ zeros 55)

abbrev short : List ℕ
short = image 0

parse-whole : parse whole ≡ parsed (decode_header whole)
unfolding parse
parse-whole = refl

parse-short : parse short ≡ parsed (decode_header short)
unfolding parse
parse-short = refl

parse-Accepts_example : (parse whole ≡ parsed (decode_header whole)) ↔ (
    (header_size ≤ length whole)
    × (decode_header whole ≡ decode_header whole)
    × Accepts (length whole) (decode_header whole))
parse-Accepts_example = parse-Accepts whole (decode_header whole) (omega arith)

program_headers-parse_example :
    get_elem? (program_headers whole (decode_header whole)) 0
    ≡ some
        (some (decode_program_header whole ((decode_header whole).phoff + 0 * program_header_size)))
unfolding decode_header
program_headers-parse_example =
    program_headers-parse whole (decode_header whole) 0 (omega arith) parse-whole (omega arith)
      (omega arith)

program_headers-overrun_example :
    ((decode_header short).phoff + 1 * (decode_header short).phentsize ≤ length short)
    × (get_elem? (program_headers short (decode_header short)) 0 ≡ some none)
unfolding decode_header
program_headers-overrun_example =
    program_headers-overrun short (decode_header short) 0 (omega arith) parse-short refl
      (omega arith)
