-- ===== src/Minix/Tests.antt =====
-- A file of ten bytes on a disk whose blocks are all alike, read through src/fs/minix3, and the theorems at
-- it.
use vesper.Prelude.{
  ℕ, zero, suc, ◌*◌, ◌<◌, ◌≤◌, ◌≡◌, refl, Option, some, List, [], ◌∷◌, arith, replicate,
  length-replicate, done,
}
use vesper.PageFrame.{Heap, page_size, allocate, deallocate}
use vesper.PageFrame.Segments.{gaps, render}
use vesper.PageFrame.Ready.{IsReady}
use vesper.Minix.{Inode, FsResult, ok, fault, Driver, block_size, magic}
use vesper.Minix.Fs.{Fs, mount, read_inode, inode_block}
use vesper.Minix.Fs.Inodes.{Widths, read_inode_lem, Mounts, mount-Mounts}
use vesper.Minix.File.{splice, read_zones, read_file}
use vesper.Minix.File.Content.{zone_at, byte_at}
use vesper.Minix.File.Zones.{Readable}
use vesper.Minix.File.Read.{Holds}
use vesper.Minix.File.Total.{read_file_lem}
use vesper.Minix.File.Holes.{read_zones-overrun, read_zones-shift}

abbrev block : List ℕ
block = replicate block_size 7

abbrev disk : ℕ → Option (List ℕ)
disk zone = some block

abbrev driver : Driver
driver dev size offset h = some block

abbrev heap : Heap
heap = record {
  heap_start = 0x8000_0000;
  heap_size = 10 * page_size;
  alloc_start = 0x8000_1000;
  table = render (gaps 10);
}

heap-IsReady : IsReady 5 heap
heap-IsReady = record {
  segments = gaps 10;
  limit = 9;
  placed = omega arith;
  held = refl;
  inside = omega arith;
  spare = omega arith;
}

abbrev file : Inode
file = record {
  mode = 0o100644;
  nlinks = 1;
  uid = 0;
  gid = 0;
  size = 10;
  atime = 0;
  mtime = 0;
  ctime = 0;
  zones = replicate 10 5;
}

abbrev fs : Fs
fs = record {
  dev = 0;
  sb = record {
    ninodes = 64;
    pad0 = 0;
    imap_blocks = 1;
    zmap_blocks = 1;
    first_data_zone = 8;
    log_zone_size = 0;
    pad1 = 0;
    max_size = 0;
    zones = 100;
    magic_number = magic;
    pad2 = 0;
    bytes_per_block = block_size;
    disk_version = 0;
  };
}

-- Four of the bytes from the sixth on are in the file; the slice has six places.
abbrev slice : List ℕ
slice = replicate 6 0

read_file_runs :
    read_file driver fs file 6 slice heap ≡ done (ok (4, 7 ∷ 7 ∷ 7 ∷ 7 ∷ 0 ∷ 0 ∷ []), heap)
unfolding read_file allocate deallocate
read_file_runs = refl

mapped : (p : ℕ) → p < 10 → (v : ℕ) × (byte_at disk file p ≡ some v)
unfolding byte_at zone_at
mapped zero h = (7, refl)
mapped (suc zero) h = (7, refl)
mapped (suc (suc zero)) h = (7, refl)
mapped (suc (suc (suc zero))) h = (7, refl)
mapped (suc (suc (suc (suc zero)))) h = (7, refl)
mapped (suc (suc (suc (suc (suc zero))))) h = (7, refl)
mapped (suc (suc (suc (suc (suc (suc zero)))))) h = (7, refl)
mapped (suc (suc (suc (suc (suc (suc (suc zero))))))) h = (7, refl)
mapped (suc (suc (suc (suc (suc (suc (suc (suc zero)))))))) h = (7, refl)
mapped (suc (suc (suc (suc (suc (suc (suc (suc (suc zero))))))))) h = (7, refl)
mapped (suc (suc (suc (suc (suc (suc (suc (suc (suc (suc p)))))))))) h = absurd (omega arith)

file-Readable : Readable disk file 6 10 slice
file-Readable = record {
  sized = λ z b e. let same : block ≡ b = cc in rw (← same) (length-replicate {A = ℕ} 1024 7);
  fits = omega arith;
  mapped = mapped;
}

read_file_lem_example :
    (out' : List ℕ) × (read_file driver fs file 6 slice heap ≡ done (ok (4, out'), heap))
    × Holds (byte_at disk file) 6 4 slice out'
read_file_lem_example =
    read_file_lem driver fs disk file 6 slice heap refl (omega arith) (omega arith) heap-IsReady
      (λ h' zone ready. refl) file-Readable

fs-Widths : Widths fs
fs-Widths = omega arith

read_inode_lem_example :
    (read_inode driver fs 18 heap ≡ done (inode_block 64 (some block), heap)) × (128 ≤ block_size)
read_inode_lem_example =
    read_inode_lem driver fs 18 heap (some block) fs-Widths (omega arith) (omega arith) heap-IsReady
      (λ h' ready. refl)

mount-Mounts_example :
    (r : FsResult Fs) × (mount driver 0 heap ≡ done (r, heap)) × Mounts 0 (some block) r
mount-Mounts_example = mount-Mounts driver 0 heap (some block) heap-IsReady (λ h' ready. refl)

-- The same with the first zone missing, and longer.
abbrev sparse : Inode
sparse = record file { size = 3000; zones = 0 ∷ replicate 9 5 }

read_zones-overrun_example : read_zones driver fs sparse 2500 slice heap ≡ done (fault, heap)
read_zones-overrun_example =
    read_zones-overrun driver fs sparse 2500 slice heap 5 (replicate 8 5) block refl (omega arith)
      refl (omega arith) (omega arith) (omega arith)

abbrev longer : List ℕ
longer = replicate 1026 0

read_zones-shift_example :
    read_zones driver fs sparse 0 longer heap ≡ done (ok (2, splice longer 0 (7 ∷ 7 ∷ [])), heap)
read_zones-shift_example =
    read_zones-shift driver fs sparse longer heap 5 (replicate 8 5) block 2 refl (omega arith) refl
      (omega arith) (omega arith) refl (omega arith)
