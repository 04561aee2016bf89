-- ===== src/Boot/Listing.antt =====
-- `test_minix3` and `list_dir` of src/boot/entry.rs, and src/fs/minix3/dir_entry.rs: the root directory of the
-- first disk. What is printed is the result; the header lines are left out.
pub mod Buffers
mod Tests
use vesper.Prelude.{
  ℕ, zero, suc, ◌+◌, ◌*◌, ◌/◌, Bool, true, false, not, Option, none, some, List, [], ◌∷◌, Outcome,
  done, panic, ◌>>=◌, ◌==◌, if◌then◌else◌, take, drop, replicate,
}
use vesper.Bytes.{u32_at}
use vesper.PageFrame.{Heap, Memory, zallocate, deallocate}
use vesper.Minix.{
  FsResult, ok, err, fault, FsError, Inode, Driver, block_size, root_inode, max_name_len,
  dirent_size, is_dir,
}
use vesper.Minix.Fs.{Fs, mount, read_inode}
use vesper.Minix.File.{read_file}
use vesper.Escape.{codes}
use vesper.Virtio.Device.{BlockDevice, first_block_device}

pub record DirEntry : Type 0 where
  pub inode : ℕ
  pub name : List ℕ

unfoldable pub decode_dir_entry : List ℕ → ℕ → DirEntry
decode_dir_entry b o = record { inode = u32_at b o; name = take max_name_len (drop (o + 4) b) }

-- `&self.name[..len]`, where `len` is the place of the first zero, or the whole length.
unfoldable pub until_zero : List ℕ → List ℕ
until_zero [] = []
until_zero (b ∷ bs) = let rest = until_zero bs in if b == 0 then [] else b ∷ rest

-- The listed entries, or why there are none; `undefined` for a read that leaves defined behaviour.
pub data Listing : Type 0 where
  listed : List (ℕ × List ℕ) → Listing
  list_failed : FsError → Listing
  undefined : Listing

pub data Probe : Type 0 where
  no_device : Probe
  mount_failed : FsError → Probe
  root_failed : FsError → Probe
  not_a_dir : Probe
  root_listed : Listing → Probe
  probe_undefined : Probe

-- `is_utf8` is the test of `core::str::from_utf8`.
module _ (is_utf8 : List ℕ → Bool) where
  unfoldable pub name_str : DirEntry → List ℕ
  unfolding until_zero
  name_str e = if is_utf8 (until_zero e.name) then until_zero e.name else codes "<bad utf8>"

  abbrev pub entry_line : DirEntry → List (ℕ × List ℕ) → List (ℕ × List ℕ)
  entry_line e rest = if e.inode == 0 then rest else (e.inode, name_str e) ∷ rest

  -- `for i in i..entries`, with `n` entries to go.
  unfoldable pub entry_lines : List ℕ → ℕ → ℕ → List (ℕ × List ℕ)
  unfolding name_str decode_dir_entry
  entry_lines b i zero = []
  entry_lines b i (suc n) =
      entry_line (decode_dir_entry b (i * dirent_size)) (entry_lines b (i + 1) n)

  abbrev pub listing_of : FsResult (ℕ × List ℕ) → Listing
  listing_of (ok (read, b)) = listed (entry_lines b 0 (read / dirent_size))
  listing_of (err e) = list_failed e
  listing_of fault = undefined

  abbrev pub close_buffer : ℕ → FsResult (ℕ × List ℕ) × Heap → Outcome (Listing × Heap)
  close_buffer p (r, h) = deallocate p h >>= λ h'. done (listing_of r, h')

  -- The page is zeroed, and the slice one block of it.
  abbrev pub list_in : Driver → Fs → Inode → Option ℕ × Memory × Heap → Outcome (Listing × Heap)
  list_in driver fs dir (none, mem, h) = panic
  list_in driver fs dir (some p, mem, h) =
      read_file driver fs dir 0 (replicate block_size 0) h >>= close_buffer p

  unfoldable pub list_dir : Driver → Fs → Inode → Memory → Heap → Outcome (Listing × Heap)
  unfolding entry_lines
  list_dir driver fs dir mem h = zallocate 1 mem h >>= list_in driver fs dir

  abbrev pub root_lines : Listing × Heap → Probe × Heap
  root_lines (l, h) = (root_listed l, h)

  abbrev pub with_root : Driver → Fs → Memory → FsResult Inode × Heap → Outcome (Probe × Heap)
  with_root driver fs mem (ok root, h) =
      if not (is_dir root)
      then done (not_a_dir, h)
      else list_dir driver fs root mem h >>= λ r. done (root_lines r)
  with_root driver fs mem (err e, h) = done (root_failed e, h)
  with_root driver fs mem (fault, h) = done (probe_undefined, h)

  abbrev pub with_fs : Driver → Memory → FsResult Fs × Heap → Outcome (Probe × Heap)
  with_fs driver mem (ok fs, h) = read_inode driver fs root_inode h >>= with_root driver fs mem
  with_fs driver mem (err e, h) = done (mount_failed e, h)
  with_fs driver mem (fault, h) = done (probe_undefined, h)

  abbrev pub on_device : Driver → Memory → Heap → Option ℕ → Outcome (Probe × Heap)
  on_device driver mem h none = done (no_device, h)
  on_device driver mem h (some dev) = mount driver dev h >>= with_fs driver mem

  -- `ELF_TEST_INODE` is 0, so that `test_elf` is not called.
  unfoldable pub test_minix3 : Driver → List BlockDevice → Memory → Heap → Outcome (Probe × Heap)
  unfolding list_dir
  test_minix3 driver devices mem h = on_device driver mem h (first_block_device devices)
