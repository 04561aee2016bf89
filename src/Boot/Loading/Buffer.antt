-- ===== src/Boot/Loading/Buffer.antt =====
-- An empty file in `test_elf` of src/boot/entry.rs.
use vesper.Prelude.{ℕ, ◌≡◌, refl, ap, ◌∙◌, arith, done, panic, ◌>>=◌}
use vesper.PageFrame.{Heap, Memory, page_size, allocate, zallocate}
use vesper.Minix.{ok, Inode, Driver}
use vesper.Minix.Fs.{Fs, read_inode}
use vesper.Boot.Loading.{wanted_bytes, div_ceil, with_file_pages, with_inode, load_elf}

zallocate_none : (mem : Memory) (h : Heap) → zallocate 0 mem h ≡ panic
unfolding zallocate allocate
zallocate_none mem h = refl

-- An empty file: the allocation of no pages panics.
load_elf_empty :
    (driver : Driver) (fs : Fs) (num : ℕ) (mem : Memory) (h : Heap) (inode : Inode)
    → read_inode driver fs num h ≡ done (ok inode, h)
    → inode.size ≡ 0
    → load_elf driver fs num mem h ≡ panic
unfolding load_elf
load_elf_empty driver fs num mem h inode read empty =
    let no_pages : div_ceil (wanted_bytes inode) page_size ≡ 0 = omega (arith, empty) in
    ap (λ r. r >>= with_inode driver fs mem) read
    ∙ ap (λ n. zallocate n mem h >>= with_file_pages driver fs inode (wanted_bytes inode)) no_pages
    ∙ ap (λ r. r >>= with_file_pages driver fs inode (wanted_bytes inode)) (zallocate_none mem h)
