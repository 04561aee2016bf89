-- ===== src/Syscall.antt =====
-- src/process/syscall.rs: the dispatch of an `ecall`.
-- The caller's frame stands apart from the slot that it lies in.
mod Tests
mod Exit
mod Read
use vesper.Prelude.{
  ℕ, zero, suc, ◌+◌, ◌%◌, ◌^◌, Option, none, some, List, [], ◌∷◌, Outcome, done, panic, ◌>>=◌, ◌==◌,
  if◌then◌else◌, get_or, set,
}
use vesper.PageFrame.{Heap, usize}
use vesper.TrapFrame.{TrapFrame}
use vesper.Process.{Table, schedule, exit_current}
use vesper.Minix.{FsResult, ok, err, fault, Driver, Fallible}
use vesper.Minix.Fs.{mount, read_inode}
use vesper.Minix.File.{read_file}

-- The two `println!`.
pub data Message : Type 0 where
  exited : ℕ → Message
  unknown_syscall : ℕ → Message

-- How the call goes on: behind the `ecall`, at another slot's address with its frame in `mscratch`, in
-- the loop of `wfi`, or outside of what is defined.
pub data Next : Type 0 where
  resume : ℕ → Next
  switch : ℕ → ℕ → Next
  park : Next
  undefined : Next

-- What is left behind: the caller's buffer is known where `read_file` returned, and on an error it may
-- have been written in part.
pub record Reply : Type 0 where
  pub next : Next
  pub frame : TrapFrame
  pub table : Table
  pub heap : Heap
  pub buffer : Option (List ℕ)
  pub output : List Message

-- `from_raw_parts_mut(at, n)`, as its bytes.
abbrev pub slice : (ℕ → ℕ) → ℕ → ℕ → List ℕ
slice memory at zero = []
slice memory at (suc n) = memory at ∷ slice memory (at + 1) n

-- `match r { Ok(a) => f(a), Err(_) => .. }`, where every error has the same answer.
abbrev pub and_ok :
    {A B : Type 0} → (A → Fallible B) → FsResult A × Heap → Outcome (FsResult B × Heap)
and_ok f (ok a, h) = f a h
and_ok f (err e, h) = done (err e, h)
and_ok f (fault, h) = done (fault, h)

-- The nested `match` of the read call.
unfoldable pub file_call : Driver → ℕ → ℕ → ℕ → List ℕ → Fallible (ℕ × List ℕ)
file_call driver dev inode offset out h =
    mount driver dev h
    >>= and_ok λ fs.
      λ h. read_inode driver fs inode h >>= and_ok λ node. read_file driver fs node offset out

abbrev pub set_a0 : ℕ → TrapFrame → TrapFrame
set_a0 n frame = record frame { regs = set frame.regs 10 n }

-- `frame.regs[10] = ..` and `epc + 4`
abbrev pub read_reply : ℕ → TrapFrame → Table → FsResult (ℕ × List ℕ) × Heap → Reply
read_reply epc frame t (r, h) = elim r [
  | ok (n, out) ↦ record {
    next = resume (usize (epc + 4));
    frame = set_a0 n frame;
    table = t;
    heap = h;
    buffer = some out;
    output = [];
  }
  | err e ↦ record {
    next = resume (usize (epc + 4));
    frame = set_a0 0 frame;
    table = t;
    heap = h;
    buffer = none;
    output = [];
  }
  | fault ↦ record {
    next = undefined;
    frame = frame;
    table = t;
    heap = h;
    buffer = none;
    output = [];
  }
]

abbrev pub exit_output : Option ℕ → List Message
exit_output none = []
exit_output (some pid) = exited pid ∷ []

abbrev pub next_of : Option (ℕ × ℕ) → Next
next_of none = park
next_of (some (slot, pc)) = switch slot pc

module _ (driver : Driver) (memory : ℕ → ℕ) (epc : ℕ) (frame : TrapFrame) (t : Table)
    (h : Heap) where
  -- The four arguments in `a1` to `a5`; three of them are cut to 32 bits.
  unfoldable pub read_call : Outcome Reply
  unfolding file_call
  read_call =
      let regs = frame.regs in
      let dev = get_or regs 11 0 in
      let inode = get_or regs 12 0 % 2 ^ 32 in
      let buffer = get_or regs 13 0 in
      let size = get_or regs 14 0 % 2 ^ 32 in
      let offset = get_or regs 15 0 % 2 ^ 32 in
      file_call driver dev inode offset (slice memory buffer size) h >>= λ r.
      done (read_reply epc frame t r)

  abbrev pub exit_reply : List Message → Option (ℕ × ℕ) × Table → Reply
  exit_reply said (r, t') = record {
    next = next_of r;
    frame = frame;
    table = t';
    heap = h;
    buffer = none;
    output = said;
  }

  abbrev pub after_exit : Option ℕ × Table → Outcome Reply
  after_exit (pid, t') = schedule epc t' >>= λ r. done (exit_reply (exit_output pid) r)

  unfoldable pub exit_call : Outcome Reply
  exit_call = exit_current t >>= after_exit

  abbrev pub step_past : List Message → Outcome Reply
  step_past said = done (record {
    next = resume (usize (epc + 4));
    frame = frame;
    table = t;
    heap = h;
    buffer = none;
    output = said;
  })

  unfoldable pub do_syscall : Outcome Reply
  unfolding read_call exit_call
  do_syscall =
      let num = get_or frame.regs 10 0 in
      if num == 1
      then step_past []
      else if num == 63
      then read_call
      else if num == 93
      then exit_call
      else step_past (unknown_syscall num ∷ [])
