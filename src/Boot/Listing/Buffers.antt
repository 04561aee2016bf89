-- ===== src/Boot/Listing/Buffers.antt =====
-- The pages that `test_minix3` of src/boot/entry.rs takes, and what `name_str` leaves of a name.
use vesper.Prelude.{
  ℕ, suc, ◌≡◌, inl, inr, refl, ap, ◌∙◌, Bool, not, Option, none, some, List, done, ◌>>=◌, replicate,
  ◌==◌, Bool-cases, ◌||◌, ltb, ◌-◌, map_done,
}
use vesper.PageFrame.{Heap, Memory, zallocate, zero_pages}
use vesper.PageFrame.Ready.{IsReady, allocate-IsReady}
use vesper.Minix.{
  FsResult, ok, err, fault, Inode, Driver, block_size, root_inode, is_dir, inode_out_of_range,
}
use vesper.Minix.Buffer.{with_buffer_lem}
use vesper.Minix.Fs.{
  Fs, mount, mount_block, read_inode, inode_at, inode_block, inode_offset, block_offset,
}
use vesper.Minix.File.Total.{read_file-heap}
use vesper.Virtio.Device.{BlockDevice, first_block_device}
use vesper.Boot.Listing.{
  Listing, Probe, no_device, mount_failed, root_failed, not_a_dir, probe_undefined, root_listed,
  list_dir, list_in, close_buffer, listing_of, with_root, with_fs, on_device, test_minix3,
}

mount-heap :
    (driver : Driver) (dev : ℕ) {n : ℕ} {h : Heap}
    → IsReady (suc n) h
    → (r : FsResult Fs) × (mount driver dev h ≡ done (r, h))
unfolding mount
mount-heap driver dev {h = h} ready =
    let (h', _, back) =
      with_buffer_lem (λ h. done (mount_block dev (driver dev block_size block_size h), h)) ready in
    let r = mount_block dev (driver dev block_size block_size h') in (r, back r refl)

read_inode-heap :
    (driver : Driver) (fs : Fs) (num : ℕ) {n : ℕ} {h : Heap}
    → IsReady (suc n) h
    → (r : FsResult Inode) × (read_inode driver fs num h ≡ done (r, h))
unfolding read_inode
read_inode-heap driver fs num {h = h} ready =
    let off = inode_offset fs num in
    let (h', _, back) = with_buffer_lem (inode_at driver fs off) ready in
    let r = inode_block (off - block_offset off) (driver fs.dev block_size (block_offset off) h') in
    elim (Bool-cases ((num == 0) || ltb fs.sb.ninodes num)) [
      | inl outside ↦ (err inode_out_of_range, rw outside refl)
      | inr inside ↦ (r, rw inside (back r refl))
    ]

module _ (is_utf8 : List ℕ → Bool) (driver : Driver) (mem : Memory) {h : Heap}
    (ready : IsReady 5 h) where
  list_dir-heap :
      (fs : Fs) (dir : Inode) → (l : Listing) × (list_dir is_utf8 driver fs dir mem h ≡ done (l, h))
  unfolding list_dir zallocate
  list_dir-heap fs dir =
      let (p, h', got, ready', back) = allocate-IsReady ready in
      let (r, e) = read_file-heap driver fs dir 0 (replicate block_size 0) ready' in
      (
        listing_of is_utf8 r,
        ap (λ m. map_done (zero_pages 1 mem) m >>= list_in is_utf8 driver fs dir) got
            ∙ ap (λ m. m >>= close_buffer is_utf8 p) e
            ∙ ap (λ m. m >>= λ h. done (listing_of is_utf8 r, h)) back,
      )

  with_root-heap :
      (fs : Fs) (r : FsResult Inode)
      → (q : Probe) × (with_root is_utf8 driver fs mem (r, h) ≡ done (q, h))
  with_root-heap fs (ok root) = elim (Bool-cases (not (is_dir root))) [
    | inl other ↦ (not_a_dir, rw other refl)
    | inr dir ↦ let (l, e) = list_dir-heap fs root in (root_listed l, rw dir (rw e refl))
  ]
  with_root-heap fs (err e) = (root_failed e, refl)
  with_root-heap fs fault = (probe_undefined, refl)

  with_fs-heap : (r : FsResult Fs) → (q : Probe) × (with_fs is_utf8 driver mem (r, h) ≡ done (q, h))
  with_fs-heap (ok fs) =
      let (r, e) = read_inode-heap driver fs root_inode ready in
      let (q, e') = with_root-heap fs r in (q, rw e e')
  with_fs-heap (err e) = (mount_failed e, refl)
  with_fs-heap fault = (probe_undefined, refl)

  on_device-heap :
      (dev : Option ℕ) → (q : Probe) × (on_device is_utf8 driver mem h dev ≡ done (q, h))
  on_device-heap none = (no_device, refl)
  on_device-heap (some dev) =
      let (r, e) = mount-heap driver dev ready in let (q, e') = with_fs-heap r in (q, rw e e')

  -- With five pages to spare, whatever the devices, the driver and the disk are, the probe of the file
  -- system at boot ends without a panic, and the heap is what it was: every buffer was given back.
  -- The probe's result may be that a read left defined behaviour.
  pub test_minix3-heap :
      (devices : List BlockDevice)
      → (q : Probe) × (test_minix3 is_utf8 driver devices mem h ≡ done (q, h))
  unfolding test_minix3
  test_minix3-heap devices = on_device-heap (first_block_device devices)
