-- ===== src/Minix.antt =====
-- src/fs/minix3: the on-disk structures and constants, the errors, and the page-backed scratch buffer.
pub mod Fs
pub mod File
pub mod Buffer
mod Tests
use vesper.Prelude.{
  ℕ, zero, suc, ◌+◌, ◌-◌, ◌*◌, ◌/◌, ◌%◌, ◌^◌, bit_and, Bool, Option, none, some, List, [], ◌∷◌,
  Outcome, done, panic, ◌>>=◌, ◌==◌, if◌then◌else◌, max,
}
use vesper.PageFrame.{Heap, page_size, allocate, deallocate}
use vesper.Bytes.{u8_at, u16_at, u32_at}

abbrev pub block_size : ℕ
block_size = 1024

abbrev pub magic : ℕ
magic = 0x4d5a

abbrev pub root_inode : ℕ
root_inode = 1

abbrev pub num_direct_zones : ℕ
num_direct_zones = 7

abbrev pub indirect_ptrs_per_block : ℕ
indirect_ptrs_per_block = block_size / 4

abbrev pub max_name_len : ℕ
max_name_len = 60

abbrev pub dirent_size : ℕ
dirent_size = 64

pub data FsError : Type 0 where
  bad_magic block_read_failed out_of_memory inode_out_of_range buffer_too_small : FsError

-- `fault` stands for a run that leaves defined behaviour: an index difference below zero, which panics where
-- overflow is checked, or a copy that does not fit into the caller's slice. It is passed on like a result,
-- but what the program does from there on is not described, and neither is the heap behind it.
pub data FsResult {ℓ} (A : Type ℓ) : Type ℓ where
  ok : A → FsResult A
  err : FsError → FsResult A
  fault : FsResult A

pub record SuperBlock : Type 0 where
  pub ninodes : ℕ
  pub pad0 : ℕ
  pub imap_blocks : ℕ
  pub zmap_blocks : ℕ
  pub first_data_zone : ℕ
  pub log_zone_size : ℕ
  pub pad1 : ℕ
  pub max_size : ℕ
  pub zones : ℕ
  pub magic_number : ℕ
  pub pad2 : ℕ
  pub bytes_per_block : ℕ
  pub disk_version : ℕ

unfoldable pub decode_super_block : List ℕ → SuperBlock
decode_super_block b = record {
  ninodes = u32_at b 0;
  pad0 = u16_at b 4;
  imap_blocks = u16_at b 6;
  zmap_blocks = u16_at b 8;
  first_data_zone = u16_at b 10;
  log_zone_size = u16_at b 12;
  pad1 = u16_at b 14;
  max_size = u32_at b 16;
  zones = u32_at b 20;
  magic_number = u16_at b 24;
  pad2 = u16_at b 26;
  bytes_per_block = u16_at b 28;
  disk_version = u8_at b 30;
}

pub record Inode : Type 0 where
  pub mode : ℕ
  pub nlinks : ℕ
  pub uid : ℕ
  pub gid : ℕ
  pub size : ℕ
  pub atime : ℕ
  pub mtime : ℕ
  pub ctime : ℕ
  pub zones : List ℕ

-- `size_of::<Inode>()`
abbrev pub inode_size : ℕ
inode_size = 64

-- `n` 32-bit words from an offset on.
abbrev pub words_at : List ℕ → ℕ → ℕ → List ℕ
words_at b zero o = []
words_at b (suc n) o = u32_at b o ∷ words_at b n (o + 4)

unfoldable pub decode_inode : List ℕ → ℕ → Inode
decode_inode b o = record {
  mode = u16_at b o;
  nlinks = u16_at b (o + 2);
  uid = u16_at b (o + 4);
  gid = u16_at b (o + 6);
  size = u32_at b (o + 8);
  atime = u32_at b (o + 12);
  mtime = u32_at b (o + 16);
  ctime = u32_at b (o + 20);
  zones = words_at b 10 (o + 24);
}

abbrev type_mask : ℕ
type_mask = 0o170000

abbrev regular : ℕ
regular = 0o100000

abbrev directory : ℕ
directory = 0o040000

unfoldable pub is_dir : Inode → Bool
is_dir i = bit_and i.mode type_mask == directory

unfoldable pub is_regular : Inode → Bool
is_regular i = bit_and i.mode type_mask == regular

-- The block driver: `read dev size offset heap` is what `block_read` leaves in a buffer of `size`
-- bytes, or `none` where it returns `false`. It takes a page for its request and gives it back, so
-- it sees the heap and leaves it as it was.
abbrev pub Driver : Type 0
Driver = ℕ → ℕ → ℕ → Heap → Option (List ℕ)

-- A computation that may use the heap.
abbrev pub Fallible : Type 0 → Type 0
Fallible A = Heap → Outcome (FsResult A × Heap)

-- `bytes.div_ceil(PAGE_SIZE).max(1)`
abbrev pub buffer_pages : ℕ → ℕ
buffer_pages bytes = max ((bytes + page_size - 1) / page_size) 1

-- `Buffer::new(..).ok_or(OutOfMemory)?`, what is done with the buffer, and its `drop`.
abbrev pub drop_buffer : {A : Type 0} → ℕ → FsResult A × Heap → Outcome (FsResult A × Heap)
drop_buffer p (r, h) = deallocate p h >>= λ h'. done (r, h')

abbrev pub use_buffer : {A : Type 0} → Fallible A → Option ℕ × Heap → Outcome (FsResult A × Heap)
use_buffer body (none, h) = done (err out_of_memory, h)
use_buffer body (some p, h) = body h >>= drop_buffer p

unfoldable pub with_buffer : {A : Type 0} → ℕ → Fallible A → Fallible A
with_buffer bytes body h = allocate (buffer_pages bytes) h >>= use_buffer body
