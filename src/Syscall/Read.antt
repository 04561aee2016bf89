-- ===== src/Syscall/Read.antt =====
-- The `read` call of src/process/syscall.rs, through mounting, the inode and the file.
use vesper.Prelude.{
  ℕ, zero, suc, ◌+◌, ◌-◌, ◌*◌, ◌%◌, ◌^◌, ◌<◌, ◌≤◌, ◌≡◌, refl, ap, ◌∙◌, min, Option, some, List, [],
  arith, done, ◌>>=◌, get_or, length,
}
use mathlib.Core.Path.{subst}
use vesper.PageFrame.{Heap, usize}
use vesper.PageFrame.Ready.{IsReady, weaken-IsReady}
use vesper.TrapFrame.{TrapFrame}
use vesper.Process.{Table}
use vesper.Minix.{Driver, ok, Inode, block_size}
use vesper.Minix.Fs.{Fs, mount, mount_block, read_inode, inode_block}
use vesper.Minix.Fs.Inodes.{Widths, inode_block_number, place_in_block, mount_lem, read_inode_lem}
use vesper.Minix.File.{read_file}
use vesper.Minix.File.Content.{byte_at}
use vesper.Minix.File.Zones.{Readable}
use vesper.Minix.File.Read.{Holds}
use vesper.Minix.File.Total.{read_file_lem}
use vesper.Syscall.{resume, slice, set_a0, and_ok, read_reply, file_call, read_call, do_syscall}

length-slice : (memory : ℕ → ℕ) (at n : ℕ) → length (slice memory at n) ≡ n
length-slice memory at zero = refl
length-slice memory at (suc n) = ap suc (length-slice memory (at + 1) n)

-- What the driver serves while it has a page for its request.
abbrev pub Serves : Driver → ℕ → (ℕ → Option (List ℕ)) → Type 0
Serves driver dev disk = (h : Heap) (off : ℕ) → IsReady 1 h → driver dev block_size off h ≡ disk off

-- The superblock and the inode that a disk holds.
pub record OnDisk (disk : ℕ → Option (List ℕ)) (fs : Fs) (num : ℕ) (node : Inode) : Type 0 where
  pub super_block : mount_block fs.dev (disk block_size) ≡ ok fs
  pub widths : Widths fs
  pub positive : 0 < num
  pub in_table : num ≤ fs.sb.ninodes
  pub inode :
      inode_block (place_in_block num) (disk (inode_block_number fs num * block_size)) ≡ ok node
  pub ten : length node.zones ≡ 10
  pub small : node.size < 2 ^ 32

module _ (driver : Driver) (disk : ℕ → Option (List ℕ)) (fs : Fs) (num : ℕ) (node : Inode)
    (h : Heap) (serves : Serves driver fs.dev disk) (held : OnDisk disk fs num node)
    (ready : IsReady 5 h) where
  mount_held : mount driver fs.dev h ≡ done (ok fs, h)
  mount_held =
      mount_lem driver fs.dev h (disk block_size) ready
        (λ h' r. serves h' block_size (weaken-IsReady (omega arith) r))
      ∙ ap (λ s. done (s, h)) held.super_block

  read_inode_held : read_inode driver fs num h ≡ done (ok node, h)
  read_inode_held =
      (read_inode_lem driver fs num h (disk (inode_block_number fs num * block_size)) held.widths
        held.positive held.in_table ready
        (λ h' r.
          serves h' (inode_block_number fs num * block_size) (weaken-IsReady (omega arith) r))).0
      ∙ ap (λ s. done (s, h)) held.inode

  file_call_held :
      (offset : ℕ) (out : List ℕ)
      → file_call driver fs.dev num offset out h ≡ read_file driver fs node offset out h
  unfolding file_call
  file_call_held offset out =
      ap
        (λ m.
          m
          >>= and_ok λ fs.
            λ h. read_inode driver fs num h >>= and_ok λ node. read_file driver fs node offset out)
        mount_held
      ∙ ap (λ m. m >>= and_ok λ node. read_file driver fs node offset out) read_inode_held

  -- The whole chain of the call, into a slice of `size` bytes.
  file_call-read_file :
      (offset size : ℕ) (out : List ℕ)
      → length out ≡ size
      → size < 2 ^ 32
      → let count = min size (node.size - offset) in
        let block = λ (zone : ℕ). disk (zone * block_size) in
        Readable block node offset (offset + count) out
        → (out' : List ℕ) × (file_call driver fs.dev num offset out h ≡ done (ok (count, out'), h))
          × Holds (byte_at block node) offset count out out'
  file_call-read_file offset size out sized fits =
      let block = λ (zone : ℕ). disk (zone * block_size) in
      subst
        (λ k.
          Readable block node offset (offset + min k (node.size - offset)) out
          → (out' : List ℕ) × (file_call driver fs.dev num offset out h
              ≡ done (ok (min k (node.size - offset), out'), h))
            × Holds (byte_at block node) offset (min k (node.size - offset)) out out')
        sized
        (λ readable.
          let (out', e, holds) =
            read_file_lem driver fs block node offset out h held.ten held.small
              (omega (arith, sized)) ready (λ h' zone r. serves h' (zone * block_size) r)
              readable in
          (out', file_call_held offset out ∙ e, holds))

-- The read call on a file without holes up to the window's end, on a disk that the driver serves while
-- a page is left for its request and that holds the superblock and the inode asked for: it goes on
-- behind the `ecall` with the number of bytes that are both asked for and in the file in `a0`, the buffer
-- holds those bytes of the file and is unchanged behind them, and the heap and the process table are as
-- they were.
pub do_syscall-read :
    (driver : Driver) (memory : ℕ → ℕ) (epc : ℕ) (frame : TrapFrame) (t : Table) (h : Heap)
    (disk : ℕ → Option (List ℕ)) (fs : Fs) (node : Inode)
    → let regs = frame.regs in
      let num = get_or regs 12 0 % 2 ^ 32 in
      let size = get_or regs 14 0 % 2 ^ 32 in
      let offset = get_or regs 15 0 % 2 ^ 32 in
      let out = slice memory (get_or regs 13 0) size in
      let count = min size (node.size - offset) in
      let block = λ (zone : ℕ). disk (zone * block_size) in
      get_or regs 10 0 ≡ 63
      → get_or regs 11 0 ≡ fs.dev
      → IsReady 5 h
      → Serves driver fs.dev disk
      → OnDisk disk fs num node
      → Readable block node offset (offset + count) out
      → (out' : List ℕ) × (do_syscall driver memory epc frame t h
          ≡ done (record {
            next = resume (usize (epc + 4));
            frame = set_a0 count frame;
            table = t;
            heap = h;
            buffer = some out';
            output = [];
          }))
        × Holds (byte_at block node) offset count out out'
unfolding do_syscall read_call
do_syscall-read driver memory epc frame t h disk fs node call device ready serves held readable =
    let regs = frame.regs in
    let size = get_or regs 14 0 % 2 ^ 32 in
    let offset = get_or regs 15 0 % 2 ^ 32 in
    let out = slice memory (get_or regs 13 0) size in
    let (out', e, holds) =
      file_call-read_file driver disk fs (get_or regs 12 0 % 2 ^ 32) node h serves held ready offset
        size out (length-slice memory (get_or regs 13 0) size) (omega arith) readable in
    (out', rw (call, device) (ap (λ m. m >>= λ r. done (read_reply epc frame t r)) e), holds)
