-- ===== src/Minix/Fs/Inodes.antt =====
-- Where `read_inode` (src/fs/minix3/fs.rs) finds an inode, and what it and `mount` return.
use vesper.Prelude.{
  ℕ, suc, ℕ_discrete, inl, inr, ◌≢◌, none, some, refl, ◌+◌, ◌-◌, ◌*◌, ◌/◌, ◌%◌, ◌^◌, ◌<◌, ◌≤◌, ◌≡◌,
  ap, ◌∙◌, ◌⊎◌, Option, List, arith, done, ltb, ◌==◌, ◌||◌, false,
}
use vesper.Prelude.Bits.{bit_and-high, bit_and-full}
use vesper.PageFrame.{Heap}
use vesper.PageFrame.Ready.{IsReady}
use vesper.Minix.{
  FsResult, ok, err, bad_magic, block_read_failed, magic, decode_super_block, inode_out_of_range,
  Driver, block_size, inode_size,
}
use vesper.Minix.Buffer.{with_buffer_lem}
use vesper.Minix.Fs.{
  Fs, mount_block, mount, inode_offset, block_offset, inode_block, inode_at, read_inode,
}

-- The mask rounds down to a block.
block_offset_lem : (off : ℕ) → off < 2 ^ 64 → block_offset off ≡ off / block_size * block_size
block_offset_lem off small =
    let q = off / block_size in
    let r = off % block_size in
    let split : off ≡ q * 2 ^ 10 + r = omega arith in
    ap block_offset split
    ∙ bit_and-high 10 q r (2 ^ 54 - 1) (omega arith)
    ∙ ap (λ t. t * 2 ^ 10) (bit_and-full 54 q (omega arith))

-- The block and the place in it of inode `num`, at 16 inodes a block.
abbrev pub inodes_per_block : ℕ
inodes_per_block = block_size / inode_size

abbrev pub inode_block_number : Fs → ℕ → ℕ
inode_block_number fs num = 2 + fs.sb.imap_blocks + fs.sb.zmap_blocks + (num - 1) / inodes_per_block

abbrev pub place_in_block : ℕ → ℕ
place_in_block num = (num - 1) % inodes_per_block * inode_size

-- The fields of the superblock are as wide as on disk.
pub record Widths (fs : Fs) : Type 0 where
  pub imap : fs.sb.imap_blocks < 2 ^ 16
  pub zmap : fs.sb.zmap_blocks < 2 ^ 16
  pub inodes : fs.sb.ninodes < 2 ^ 32

inode_place :
    (fs : Fs) (num : ℕ)
    → Widths fs
    → 0 < num
    → num ≤ fs.sb.ninodes
    → (block_offset (inode_offset fs num) ≡ inode_block_number fs num * block_size)
      × (inode_offset fs num - block_offset (inode_offset fs num) ≡ place_in_block num)
inode_place fs num w pos le =
    let at : block_offset (inode_offset fs num) ≡ inode_block_number fs num * block_size =
      block_offset_lem (inode_offset fs num) (omega (arith, w.imap, w.zmap, w.inodes))
      ∙ omega arith in
    (at, omega (arith, at))

-- With a page to spare and a superblock whose fields are as wide as on disk, for the number of an
-- inode of the table: `read_inode` returns what lies at that inode's place in its block if the
-- driver reads that block, and an error if it does not; the heap is restored, and the inode does
-- not cross the block's end.
pub read_inode_lem :
    (driver : Driver) (fs : Fs) (num : ℕ) (h : Heap) (b : Option (List ℕ)) {n : ℕ}
    → Widths fs
    → 0 < num
    → num ≤ fs.sb.ninodes
    → IsReady (suc n) h
    → ((h' : Heap)
        → IsReady n h'
        → driver fs.dev block_size (inode_block_number fs num * block_size) h' ≡ b)
    → (read_inode driver fs num h ≡ done (inode_block (place_in_block num) b, h))
      × (place_in_block num + inode_size ≤ block_size)
unfolding read_inode
read_inode_lem driver fs num h b w pos le ready serves =
    let (at, within) = inode_place fs num w pos le in
    let off = inode_offset fs num in
    let place = place_in_block num in
    let (h', ready', back) = with_buffer_lem (inode_at driver fs off) ready in
    let in_range : ((num == 0) || ltb fs.sb.ninodes num) ≡ false = ground arith in
    let result : inode_at driver fs off h' ≡ done (inode_block place b, h') =
      ap (λ w. done (inode_block w (driver fs.dev block_size (block_offset off) h'), h')) within
      ∙ ap (λ o. done (inode_block place (driver fs.dev block_size o h'), h')) at
      ∙ ap (λ r. done (inode_block place r, h')) (serves h' ready') in
    (rw in_range (back (inode_block place b) result), omega arith)

-- For the inode number 0 and those behind the table `read_inode` returns `InodeOutOfRange`,
-- whatever the driver is, with the heap unchanged.
pub read_inode_range :
    (driver : Driver) (fs : Fs) (num : ℕ) (h : Heap)
    → (num ≡ 0) ⊎ (fs.sb.ninodes < num)
    → read_inode driver fs num h ≡ done (err inode_out_of_range, h)
unfolding read_inode
read_inode_range driver fs num h out = ground arith

-- Mounting is what block 1 decides.
pub mount_lem :
    (driver : Driver) (dev : ℕ) (h : Heap) (b : Option (List ℕ)) {n : ℕ}
    → IsReady (suc n) h
    → ((h' : Heap) → IsReady n h' → driver dev block_size block_size h' ≡ b)
    → mount driver dev h ≡ done (mount_block dev b, h)
unfolding mount
mount_lem driver dev h b ready serves =
    let (h', ready', back) =
      with_buffer_lem (λ h. done (mount_block dev (driver dev block_size block_size h), h)) ready in
    back (mount_block dev b) (ap (λ o. done (mount_block dev o, h')) (serves h' ready'))

-- What a mount returns for what was read of block 1.
abbrev pub Mounts : ℕ → Option (List ℕ) → FsResult Fs → Type 0
Mounts dev none r = r ≡ err block_read_failed
Mounts dev (some b) r =
    let sb = decode_super_block b in
    ((sb.magic_number ≡ magic) × (r ≡ ok (record { dev = dev; sb = sb })))
    ⊎ ((sb.magic_number ≢ magic) × (r ≡ err bad_magic))

mount_block-Mounts : (dev : ℕ) (b : Option (List ℕ)) → Mounts dev b (mount_block dev b)
mount_block-Mounts dev none = refl
mount_block-Mounts dev (some b) =
    let sb = decode_super_block b in
    elim (ℕ_discrete sb.magic_number magic) [
      | yes same ↦ inl (same, ground arith)
      | no other ↦ inr (other, ground arith)
    ]

-- With a page to spare, over a driver that serves block 1 as `b` while it has the remaining pages,
-- `mount` returns and restores the heap: it fails with `BlockReadFailed` if the block cannot be read and
-- with `BadMagic` if the magic number is another one, and otherwise returns the superblock with the
-- device.
pub mount-Mounts :
    (driver : Driver) (dev : ℕ) (h : Heap) (b : Option (List ℕ)) {n : ℕ}
    → IsReady (suc n) h
    → ((h' : Heap) → IsReady n h' → driver dev block_size block_size h' ≡ b)
    → (r : FsResult Fs) × (mount driver dev h ≡ done (r, h)) × Mounts dev b r
mount-Mounts driver dev h b ready serves =
    (mount_block dev b, mount_lem driver dev h b ready serves, mount_block-Mounts dev b)
