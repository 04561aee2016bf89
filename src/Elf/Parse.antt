-- ===== src/Elf/Parse.antt =====
-- Which buffers `parse` (src/exec/elf.rs) accepts.
use vesper.Prelude.{
  ℕ, ◌+◌, ◌*◌, ◌^◌, ◌<◌, ◌≤◌, ◌≡◌, ◌↔◌, sym, ap, ◌∙◌, List, arith, length, dec_lt, lt→ltb, ge→ltb,
}
use mathlib.Core.Path.{subst}
use vesper.Elf.{
  Header, magic, machine_riscv, type_exec, header_size, decode_header, parsed, rejected, truncated,
  check_header, parse,
}

-- A header of an executable for this machine whose program headers end inside a buffer.
pub record Accepts (len : ℕ) (h : Header) : Type 0 where
  pub magic_number : h.magic_number ≡ magic
  pub machine : h.machine ≡ machine_riscv
  pub executable : h.obj_type ≡ type_exec
  pub table_end : h.phoff + h.phnum * h.phentsize ≤ len

check_header-Accepts :
    (len : ℕ) (h k : Header) → check_header len h ≡ parsed k → Accepts len h × (k ≡ h)
unfolding check_header
check_header-Accepts len h k e = (
  record {
    magic_number = ground arith;
    machine = ground arith;
    executable = ground arith;
    table_end = ground arith;
  },
  ground arith,
)

Accepts-check_header :
    (len : ℕ) (h : Header) → len < 2 ^ 64 → Accepts len h → check_header len h ≡ parsed h
unfolding check_header
Accepts-check_header len h small a =
    ground (arith, a.magic_number, a.machine, a.executable, a.table_end)

parse_long :
    (buf : List ℕ)
    → header_size ≤ length buf
    → parse buf ≡ check_header (length buf) (decode_header buf)
unfolding parse
parse_long buf long = rw (ge→ltb (length buf) header_size long)

parse_short : (buf : List ℕ) → length buf < header_size → parse buf ≡ rejected truncated
unfolding parse
parse_short buf short = rw (lt→ltb (length buf) header_size short)

-- `parse` returns the header `h` exactly if the buffer holds a whole header, `h` is that header, it has
-- the ELF magic number, the RISC-V machine number and the type of an executable, and `phnum` entries of
-- `phentsize` bytes from `phoff` on end inside the buffer; the buffer's length fits into 64 bits.
pub parse-Accepts :
    (buf : List ℕ) (h : Header)
    → length buf < 2 ^ 64
    → (parse buf ≡ parsed h)
      ↔ ((header_size ≤ length buf) × (h ≡ decode_header buf) × Accepts (length buf) h)
parse-Accepts buf h small = (there, back)
  where
    there :
        parse buf ≡ parsed h
        → (header_size ≤ length buf) × (h ≡ decode_header buf) × Accepts (length buf) h
    there e = elim (dec_lt (length buf) header_size) [
      | yes short ↦ absurd (cc (parse_short buf short, e))
      | no long ↦
          let le : header_size ≤ length buf = omega arith in
          let (a, is) =
            check_header-Accepts (length buf) (decode_header buf) h (sym (parse_long buf le) ∙ e) in
          (le, is, subst (Accepts (length buf)) (sym is) a)
    ]

    back :
        (header_size ≤ length buf) × (h ≡ decode_header buf) × Accepts (length buf) h
        → parse buf ≡ parsed h
    back (long, is, a) =
        parse_long buf long
        ∙ ap (check_header (length buf)) (sym is)
        ∙ Accepts-check_header (length buf) h small a
