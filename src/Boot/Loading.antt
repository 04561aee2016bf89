-- ===== src/Boot/Loading.antt =====
-- `test_elf` of src/boot/entry.rs: an executable is read from the file system and its segments are listed. What
-- is printed is the result.
mod Buffer
mod Tests
use vesper.Prelude.{
  ℕ, zero, suc, ◌+◌, ◌-◌, ◌*◌, ◌/◌, Bool, true, false, Option, none, some, List, [], ◌∷◌, Outcome,
  done, ◌>>=◌, ◌==◌, if◌then◌else◌, take, replicate, min,
}
use mathlib.Core.Option
use vesper.PageFrame.{Heap, Memory, page_size, zallocate, deallocate}
use vesper.Minix.{FsResult, ok, err, fault, FsError, Inode, Driver}
use vesper.Minix.Fs.{Fs, read_inode}
use vesper.Minix.File.{read_file}
use vesper.Elf.{
  Header, ProgramHeader, ElfError, ElfResult, parsed, rejected, pt_load, parse, program_headers,
}

abbrev pub elf_test_inode : ℕ
elf_test_inode = 0

abbrev pub elf_test_max_size : ℕ
elf_test_max_size = 64 * 1024

-- The header with the segments to load and their numbers, or why there are none; `load_undefined` for a read
-- that leaves defined behaviour.
pub data Load : Type 0 where
  inode_failed : FsError → Load
  out_of_memory : Load
  file_failed : FsError → Load
  short_read : ℕ → ℕ → Load
  loaded : Header → List (ℕ × ProgramHeader) → Load
  elf_failed : ElfError → Load
  load_undefined : Load

abbrev pub segment_line : ℕ → ProgramHeader → List (ℕ × ProgramHeader) → List (ℕ × ProgramHeader)
segment_line i ph rest = if ph.seg_type == pt_load then (i, ph) ∷ rest else rest

-- The headers from number `i` on; none if one of them is outside of the buffer.
unfoldable pub segment_lines : ℕ → List (Option ProgramHeader) → Option (List (ℕ × ProgramHeader))
segment_lines i [] = some []
segment_lines i (none ∷ phs) = none
segment_lines i (some ph ∷ phs) = Option.map (segment_line i ph) (segment_lines (i + 1) phs)

abbrev pub loaded_with : Header → Option (List (ℕ × ProgramHeader)) → Load
loaded_with hdr none = load_undefined
loaded_with hdr (some lines) = loaded hdr lines

unfoldable pub elf_report : List ℕ → ElfResult → Load
unfolding segment_lines program_headers
elf_report b (parsed hdr) = loaded_with hdr (segment_lines 0 (program_headers b hdr))
elf_report b (rejected e) = elf_failed e

unfoldable pub file_report : ℕ → FsResult (ℕ × List ℕ) → Load
unfolding elf_report parse
file_report want (ok (got, b)) =
    if got == want then elf_report (take got b) (parse (take got b)) else short_read want got
file_report want (err e) = file_failed e
file_report want fault = load_undefined

-- Each way out behind the allocation gives the pages back.
abbrev pub close_pages : ℕ → ℕ → FsResult (ℕ × List ℕ) × Heap → Outcome (Load × Heap)
close_pages p want (r, h) = deallocate p h >>= λ h'. done (file_report want r, h')

abbrev pub with_file_pages :
    Driver → Fs → Inode → ℕ → Option ℕ × Memory × Heap → Outcome (Load × Heap)
with_file_pages driver fs inode want (none, mem, h) = done (out_of_memory, h)
with_file_pages driver fs inode want (some p, mem, h) =
    read_file driver fs inode 0 (replicate want 0) h >>= close_pages p want

-- `min(inode.size, ELF_TEST_MAX_SIZE)`
abbrev pub wanted_bytes : Inode → ℕ
wanted_bytes inode = min inode.size elf_test_max_size

-- `want.div_ceil(PAGE_SIZE)`
abbrev pub div_ceil : ℕ → ℕ → ℕ
div_ceil n m = (n + m - 1) / m

abbrev pub with_inode : Driver → Fs → Memory → FsResult Inode × Heap → Outcome (Load × Heap)
with_inode driver fs mem (ok inode, h) =
    zallocate (div_ceil (wanted_bytes inode) page_size) mem h
    >>= with_file_pages driver fs inode (wanted_bytes inode)
with_inode driver fs mem (err e, h) = done (inode_failed e, h)
with_inode driver fs mem (fault, h) = done (load_undefined, h)

-- The body, for any inode.
unfoldable pub load_elf : Driver → Fs → ℕ → Memory → Heap → Outcome (Load × Heap)
unfolding read_inode zallocate read_file deallocate file_report
load_elf driver fs num mem h = read_inode driver fs num h >>= with_inode driver fs mem

unfoldable pub test_elf : Driver → Fs → Memory → Heap → Outcome (Load × Heap)
unfolding load_elf
test_elf driver fs mem h = load_elf driver fs elf_test_inode mem h
