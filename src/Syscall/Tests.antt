-- ===== src/Syscall/Tests.antt =====
-- The calls of src/process/syscall.rs on a disk with one file of two bytes, and on a table of two threads.
use vesper.Prelude.{
  ℕ, zero, suc, ◌*◌, ◌<◌, ◌≡◌, ◌≢◌, refl, Bool, true, false, Option, none, some, List, [], ◌∷◌,
  ◌++◌, ◌==◌, if◌then◌else◌, arith, replicate, length-replicate, length, done, get_elem?,
}
use vesper.PageFrame.{Heap, page_size}
use vesper.PageFrame.Segments.{gaps, render}
use vesper.PageFrame.Ready.{IsReady}
use vesper.TrapFrame.{TrapFrame}
use vesper.Process.{Process, Table, running, slot_pc}
use vesper.Process.Pick.{runs_at}
use vesper.Process.Schedule.{IsTable}
use vesper.Minix.{Inode, Driver, block_size, decode_super_block, decode_inode}
use vesper.Minix.Fs.{Fs}
use vesper.Minix.File.Content.{zone_at, byte_at}
use vesper.Minix.File.Zones.{Readable}
use vesper.Minix.File.Read.{Holds}
use vesper.Syscall.{resume, set_a0, exited, next_of, do_syscall}
use vesper.Syscall.Exit.{do_syscall-exit}
use vesper.Syscall.Read.{OnDisk, do_syscall-read}

-- 17 inodes, one block of each map, the magic number.
abbrev super_block : List ℕ
super_block =
    17 ∷ 0 ∷ 0 ∷ 0 ∷ 0 ∷ 0 ∷ 1 ∷ 0 ∷ 1 ∷ 0 ∷ (replicate 14 0 ++ (0x5a ∷ 0x4d ∷ replicate 998 0))

-- An inode of size 2 with its data in zone 5.
abbrev inodes : List ℕ
inodes = replicate 8 0 ++ (2 ∷ replicate 15 0 ++ (5 ∷ replicate 999 0))

abbrev disk : ℕ → Option (List ℕ)
disk off =
    if off == 1024
    then some super_block
    else if off == 4096
    then some inodes
    else some (replicate block_size 7)

abbrev driver : Driver
driver dev size off h = disk off

abbrev fs : Fs
fs = record { dev = 0; sb = decode_super_block super_block }

abbrev node : Inode
node = decode_inode inodes 0

abbrev heap : Heap
heap = record {
  heap_start = 0x8000_0000;
  heap_size = 10 * page_size;
  alloc_start = 0x8000_1000;
  table = render (gaps 10);
}

heap-IsReady : IsReady 5 heap
heap-IsReady = record {
  segments = gaps 10;
  limit = 9;
  placed = omega arith;
  held = refl;
  inside = omega arith;
  spare = omega arith;
}

abbrev frame : List ℕ → TrapFrame
frame args = record {
  regs = replicate 10 0 ++ (args ++ replicate 16 0);
  fregs = [];
  satp = 0;
  trap_stack = 0;
  hartid = 0;
}

-- Three bytes from offset 1 on of inode 1 on device 0, to the address 0x1000.
abbrev read_frame : TrapFrame
read_frame = frame (63 ∷ 0 ∷ 1 ∷ 0x1000 ∷ 3 ∷ 1 ∷ [])

abbrev exit_frame : TrapFrame
exit_frame = frame (93 ∷ 0 ∷ 0 ∷ 0 ∷ 0 ∷ 0 ∷ [])

abbrev thread : ℕ → ℕ → Process
thread pid pc = record { frame = frame []; stack = 0; pc = pc; pid = pid; state = running }

abbrev two : Table
two = record {
  slots = some (thread 1 100) ∷ some (thread 2 200) ∷ replicate 14 none;
  current = some 0;
}

two-IsTable : IsTable two
two-IsTable = record { sized = refl; within = λ i e. ground arith }

block-length :
    (x y : Bool) (b : List ℕ)
    → (if x then some super_block else if y then some inodes else some (replicate block_size 7))
      ≡ some b
    → length b ≡ block_size
block-length true y b e = let same : super_block ≡ b = cc in rw (← same) refl
block-length false true b e = let same : inodes ≡ b = cc in rw (← same) refl
block-length false false b e =
    let same : replicate block_size 7 ≡ b = cc in
    rw (← same) (length-replicate {A = ℕ} block_size 7)

mapped : (p : ℕ) → p < 2 → (v : ℕ) × (byte_at (λ zone. disk (zone * block_size)) node p ≡ some v)
unfolding byte_at zone_at decode_inode
mapped zero h = (7, refl)
mapped (suc zero) h = (7, refl)
mapped (suc (suc p)) h = absurd (omega arith)

file-Readable : Readable (λ zone. disk (zone * block_size)) node 1 2 (0 ∷ 0 ∷ 0 ∷ [])
file-Readable = record {
  sized = λ z b e. block-length (z * block_size == 1024) (z * block_size == 4096) b e;
  fits = omega arith;
  mapped = mapped;
}

file-OnDisk : OnDisk disk fs 1 node
unfolding decode_super_block decode_inode
file-OnDisk = record {
  super_block = refl;
  widths = record { imap = omega arith; zmap = omega arith; inodes = omega arith };
  positive = omega arith;
  in_table = omega arith;
  inode = refl;
  ten = refl;
  small = omega arith;
}

do_syscall-read_example :
    (out' : List ℕ) × (do_syscall driver (λ a. 0) 500 read_frame two heap
      ≡ done (record {
        next = resume 504;
        frame = set_a0 1 read_frame;
        table = two;
        heap = heap;
        buffer = some out';
        output = [];
      }))
    × Holds (byte_at (λ zone. disk (zone * block_size)) node) 1 1 (0 ∷ 0 ∷ 0 ∷ []) out'
unfolding decode_super_block decode_inode
do_syscall-read_example =
    do_syscall-read driver (λ a. 0) 500 read_frame two heap disk fs node refl refl heap-IsReady
      (λ h off r. refl) file-OnDisk file-Readable

do_syscall-exit_example :
    (t' : Table) × (r : Option (ℕ × ℕ)) × (do_syscall driver (λ a. 0) 104 exit_frame two heap
      ≡ done (record {
        next = next_of r;
        frame = exit_frame;
        table = t';
        heap = heap;
        buffer = none;
        output = exited 1 ∷ [];
      }))
    × (get_elem? t'.slots 0 ≡ some none)
    × ((j pc : ℕ)
        → r ≡ some (j, pc)
        → (j ≢ 0) × (runs_at two.slots j ≡ true) × (pc ≡ slot_pc (get_elem? two.slots j)))
do_syscall-exit_example =
    do_syscall-exit driver (λ a. 0) 104 exit_frame two heap 0 (thread 1 100) refl two-IsTable refl
      refl
