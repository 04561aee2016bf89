-- ===== src/Elf.antt =====
-- src/exec/elf.rs: the ELF64 header, the program headers and their parser.
pub mod Parse
pub mod Walk
mod Tests
use vesper.Prelude.{
  ℕ, zero, suc, ◌+◌, ◌*◌, ◌^◌, Option, none, some, List, [], ◌∷◌, ltb, leb, ◌==◌, not, length,
  if◌then◌else◌,
}
use vesper.Bytes.{u8_at, u16_at, u32_at, u64_at}

abbrev pub magic : ℕ
magic = 0x464c457f

abbrev pub machine_riscv : ℕ
machine_riscv = 0xf3

abbrev pub type_exec : ℕ
type_exec = 2

abbrev pub pt_load : ℕ
pt_load = 1

pub record Header : Type 0 where
  pub magic_number : ℕ
  pub bitsize : ℕ
  pub endian : ℕ
  pub ident_abi_version : ℕ
  pub target_platform : ℕ
  pub abi_version : ℕ
  pub padding : List ℕ
  pub obj_type : ℕ
  pub machine : ℕ
  pub version : ℕ
  pub entry_addr : ℕ
  pub phoff : ℕ
  pub shoff : ℕ
  pub flags : ℕ
  pub ehsize : ℕ
  pub phentsize : ℕ
  pub phnum : ℕ
  pub shentsize : ℕ
  pub shnum : ℕ
  pub shstrndx : ℕ

-- `size_of::<Header>()`
abbrev pub header_size : ℕ
header_size = 64

abbrev bytes_at : List ℕ → ℕ → ℕ → List ℕ
bytes_at b zero o = []
bytes_at b (suc n) o = u8_at b o ∷ bytes_at b n (o + 1)

-- `*(buf.as_ptr() as *const Header)`
unfoldable pub decode_header : List ℕ → Header
decode_header b = record {
  magic_number = u32_at b 0;
  bitsize = u8_at b 4;
  endian = u8_at b 5;
  ident_abi_version = u8_at b 6;
  target_platform = u8_at b 7;
  abi_version = u8_at b 8;
  padding = bytes_at b 7 9;
  obj_type = u16_at b 16;
  machine = u16_at b 18;
  version = u32_at b 20;
  entry_addr = u64_at b 24;
  phoff = u64_at b 32;
  shoff = u64_at b 40;
  flags = u32_at b 48;
  ehsize = u16_at b 52;
  phentsize = u16_at b 54;
  phnum = u16_at b 56;
  shentsize = u16_at b 58;
  shnum = u16_at b 60;
  shstrndx = u16_at b 62;
}

pub record ProgramHeader : Type 0 where
  pub seg_type : ℕ
  pub flags : ℕ
  pub off : ℕ
  pub vaddr : ℕ
  pub paddr : ℕ
  pub filesz : ℕ
  pub memsz : ℕ
  pub align : ℕ

-- `size_of::<ProgramHeader>()`
abbrev pub program_header_size : ℕ
program_header_size = 56

unfoldable pub decode_program_header : List ℕ → ℕ → ProgramHeader
decode_program_header b o = record {
  seg_type = u32_at b o;
  flags = u32_at b (o + 4);
  off = u64_at b (o + 8);
  vaddr = u64_at b (o + 16);
  paddr = u64_at b (o + 24);
  filesz = u64_at b (o + 32);
  memsz = u64_at b (o + 40);
  align = u64_at b (o + 48);
}

pub data ElfError : Type 0 where
  bad_magic not_riscv not_executable truncated : ElfError

pub data ElfResult : Type 0 where
  parsed : Header → ElfResult
  rejected : ElfError → ElfResult

-- `a.checked_add(b)` on 64 bits.
abbrev checked_add : ℕ → ℕ → Option ℕ
checked_add a b = if ltb (a + b) (2 ^ 64) then some (a + b) else none

-- The comparison of the table's end with the buffer's length.
abbrev check_end : ℕ → Header → Option ℕ → ElfResult
check_end len h none = rejected truncated
check_end len h (some ph_end) = if ltb len ph_end then rejected truncated else parsed h

-- What `parse` checks of a header that lies in a buffer of `len` bytes.
unfoldable pub check_header : ℕ → Header → ElfResult
check_header len h =
    if not (h.magic_number == magic)
    then rejected bad_magic
    else if not (h.machine == machine_riscv)
    then rejected not_riscv
    else if not (h.obj_type == type_exec)
    then rejected not_executable
    else check_end len h (checked_add h.phoff (h.phnum * h.phentsize))

unfoldable pub parse : List ℕ → ElfResult
unfolding check_header decode_header
parse buf =
    if ltb (length buf) header_size
    then rejected truncated
    else check_header (length buf) (decode_header buf)

-- The header that is read at an offset; `none` where the read leaves the buffer.
unfoldable pub program_header_at : List ℕ → ℕ → Option ProgramHeader
program_header_at buf o =
    if leb (o + program_header_size) (length buf) then some (decode_program_header buf o) else none

-- `(i..i + n).map(..)`
unfoldable pub headers_from : List ℕ → ℕ → ℕ → ℕ → List (Option ProgramHeader)
unfolding program_header_at
headers_from buf phoff i zero = []
headers_from buf phoff i (suc n) =
    program_header_at buf (phoff + i * program_header_size) ∷ headers_from buf phoff (i + 1) n

unfoldable pub program_headers : List ℕ → Header → List (Option ProgramHeader)
unfolding headers_from
program_headers buf hdr = headers_from buf hdr.phoff 0 hdr.phnum
