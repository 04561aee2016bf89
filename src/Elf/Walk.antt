-- ===== src/Elf/Walk.antt =====
-- The walk of `program_headers` (src/exec/elf.rs) over a buffer that `parse` accepted.
use vesper.Prelude.{
  ℕ, zero, suc, ◌+◌, ◌*◌, ◌^◌, ◌<◌, ◌≤◌, ◌≡◌, ap, ◌∙◌, none, some, List, arith, length, get_elem?,
}
use mathlib.Core.Path.{subst}
use native.Mathlib.Nat.{mul-le-mul}
use vesper.Elf.{
  Header, parsed, program_header_size, program_header_at, decode_program_header, headers_from,
  program_headers, parse,
}
use vesper.Elf.Parse.{parse-Accepts}

headers_from-get_elem? :
    (buf : List ℕ) (phoff i n k : ℕ)
    → k < n
    → get_elem? (headers_from buf phoff i n) k
      ≡ some (program_header_at buf (phoff + (i + k) * program_header_size))
unfolding headers_from
headers_from-get_elem? buf phoff i zero k lt = elim lt [ ]
headers_from-get_elem? buf phoff i (suc n) zero lt =
    ap (λ j. some (program_header_at buf (phoff + j * program_header_size))) (omega arith)
headers_from-get_elem? buf phoff i (suc n) (suc k) lt =
    headers_from-get_elem? buf phoff (i + 1) n k (omega arith)
    ∙ ap (λ j. some (program_header_at buf (phoff + j * program_header_size))) (omega arith)

program_headers-get_elem? :
    (buf : List ℕ) (h : Header) (k : ℕ)
    → k < h.phnum
    → get_elem? (program_headers buf h) k
      ≡ some (program_header_at buf (h.phoff + k * program_header_size))
unfolding program_headers
program_headers-get_elem? buf h k lt =
    headers_from-get_elem? buf h.phoff 0 h.phnum k lt
    ∙ ap (λ j. some (program_header_at buf (h.phoff + j * program_header_size))) (omega arith)

program_header_at-some :
    (buf : List ℕ) (o : ℕ)
    → o + program_header_size ≤ length buf
    → program_header_at buf o ≡ some (decode_program_header buf o)
unfolding program_header_at
program_header_at-some buf o le = ground arith

program_header_at-none :
    (buf : List ℕ) (o : ℕ) → length buf < o + program_header_size → program_header_at buf o ≡ none
unfolding program_header_at
program_header_at-none buf o le = ground arith

-- If `parse` accepted a buffer whose length fits into 64 bits, and its header says that an entry has at
-- least the 56 bytes of a `ProgramHeader`, then every header that the walk yields lies in the buffer,
-- at `phoff` and 56 bytes a header.
pub program_headers-parse :
    (buf : List ℕ) (h : Header) (k : ℕ)
    → length buf < 2 ^ 64
    → parse buf ≡ parsed h
    → program_header_size ≤ h.phentsize
    → k < h.phnum
    → get_elem? (program_headers buf h) k
      ≡ some (some (decode_program_header buf (h.phoff + k * program_header_size)))
program_headers-parse buf h k small e wide lt =
    let (long, is, a) = (parse-Accepts buf h small).0 e in
    let room : (k + 1) * program_header_size ≤ h.phnum * h.phentsize =
      mul-le-mul (omega arith) wide in
    program_headers-get_elem? buf h k lt
    ∙ ap some (program_header_at-some buf _ (omega (arith, a.table_end)))

-- If `parse` accepted a buffer whose length fits into 64 bits, with at least one program header,
-- and 56 bytes a header lead behind the buffer's end, then the table ends inside the buffer by the
-- header's own entry size, and the last read of the walk leaves the buffer.
pub program_headers-overrun :
    (buf : List ℕ) (h : Header) (n : ℕ)
    → length buf < 2 ^ 64
    → parse buf ≡ parsed h
    → h.phnum ≡ suc n
    → length buf < h.phoff + suc n * program_header_size
    → (h.phoff + suc n * h.phentsize ≤ length buf)
      × (get_elem? (program_headers buf h) n ≡ some none)
program_headers-overrun buf h n small e count over =
    let (long, is, a) = (parse-Accepts buf h small).0 e in
    (
      subst (λ m. h.phoff + m * h.phentsize ≤ length buf) count a.table_end,
      program_headers-get_elem? buf h n (omega arith)
          ∙ ap some (program_header_at-none buf _ (omega arith)),
    )
