-- ===== src/Minix/Fs.antt =====
-- src/fs/minix3/fs.rs: mounting, and reading an inode.
pub mod Inodes
use vesper.Prelude.{
  ℕ, zero, suc, ◌+◌, ◌-◌, ◌*◌, ◌/◌, ◌%◌, ◌^◌, bit_and, Option, none, some, List, Outcome, done,
  ◌==◌, ltb, ◌||◌, not, if◌then◌else◌,
}
use vesper.PageFrame.{Heap}
use vesper.Minix.{
  FsResult, ok, err, FsError, bad_magic, block_read_failed, inode_out_of_range, SuperBlock, Inode,
  Driver, Fallible, block_size, inode_size, magic, decode_super_block, decode_inode, with_buffer,
}

pub record Fs : Type 0 where
  pub dev : ℕ
  pub sb : SuperBlock

abbrev check_magic : ℕ → SuperBlock → FsResult Fs
check_magic dev sb =
    if not (sb.magic_number == magic) then err bad_magic else ok (record { dev = dev; sb = sb })

abbrev pub mount_block : ℕ → Option (List ℕ) → FsResult Fs
mount_block dev none = err block_read_failed
mount_block dev (some b) = check_magic dev (decode_super_block b)

module _ (driver : Driver) where
  unfoldable pub mount : ℕ → Fallible Fs
  unfolding with_buffer
  mount dev =
      with_buffer block_size (λ h. done (mount_block dev (driver dev block_size block_size h), h))

-- In 64 bits; the two counts have 16.
abbrev pub inode_table_offset : Fs → ℕ
inode_table_offset fs = (2 + fs.sb.imap_blocks + fs.sb.zmap_blocks) * block_size

abbrev pub inode_offset : Fs → ℕ → ℕ
inode_offset fs num = inode_table_offset fs + (num - 1) * inode_size

-- `inode_off & !(BLOCK_SIZE - 1)` on 64 bits.
abbrev pub block_offset : ℕ → ℕ
block_offset off = bit_and off (2 ^ 64 - block_size)

abbrev pub inode_block : ℕ → Option (List ℕ) → FsResult Inode
inode_block within none = err block_read_failed
inode_block within (some b) = ok (decode_inode b within)

-- The read of the block around a byte offset, with the buffer in hand.
abbrev pub inode_at : Driver → Fs → ℕ → Fallible Inode
inode_at driver fs off h =
    done (inode_block (off - block_offset off) (driver fs.dev block_size (block_offset off) h), h)

unfoldable pub read_inode : Driver → Fs → ℕ → Fallible Inode
unfolding with_buffer
read_inode driver fs num h =
    if (num == 0) || ltb fs.sb.ninodes num
    then done (err inode_out_of_range, h)
    else with_buffer block_size (inode_at driver fs (inode_offset fs num)) h
