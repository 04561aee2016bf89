-- ===== src/Boot/Listing/Tests.antt =====
-- The root directory of src/boot/entry.rs on a disk with two entries, one of them free.
use vesper.Prelude.{ℕ, ◌+◌, ◌*◌, ◌≡◌, refl, arith, true, some, List, [], ◌∷◌, ◌++◌, done, replicate}
use vesper.PageFrame.{Heap, page_size}
use vesper.PageFrame.Segments.{gaps, render}
use vesper.PageFrame.Ready.{IsReady}
use vesper.Minix.{Driver, block_size}
use vesper.Virtio.Device.{BlockDevice, empty_device, mmio_start}
use vesper.Boot.Listing.{Probe, decode_dir_entry, entry_lines, name_str, test_minix3}
use vesper.Boot.Listing.Buffers.{test_minix3-heap}

-- Inode 1 as `.`, and a free entry.
abbrev block : List ℕ
block = 1 ∷ 0 ∷ 0 ∷ 0 ∷ b'.' ∷ replicate 59 0 ++ replicate 64 0

lines_run : entry_lines (λ b. true) block 0 2 ≡ (1, b'.' ∷ []) ∷ []
unfolding entry_lines name_str decode_dir_entry
lines_run = refl

abbrev driver : Driver
driver dev size off h = some (replicate block_size 7)

abbrev heap : Heap
heap = record {
  heap_start = 0x8000_0000;
  heap_size = 10 * page_size;
  alloc_start = 0x8000_1000;
  table = render (gaps 10);
}

heap-IsReady : IsReady 5 heap
heap-IsReady = record {
  segments = gaps 10;
  limit = 9;
  placed = omega arith;
  held = refl;
  inside = omega arith;
  spare = omega arith;
}

abbrev devices : List BlockDevice
devices = empty_device ∷ record empty_device { dev = mmio_start + 0x1000 } ∷ []

test_minix3-heap_example :
    (q : Probe) × (test_minix3 (λ b. true) driver devices (λ a. 0) heap ≡ done (q, heap))
test_minix3-heap_example = test_minix3-heap (λ b. true) driver (λ a. 0) heap-IsReady devices
