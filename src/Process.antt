-- ===== src/Process.antt =====
-- src/process/process.rs and src/process/table.rs: the process table, spawning, the round-robin scheduler
-- and the exit of the current process.
-- A slot is named by its index where the code hands out a pointer to the frame in it.
pub mod Pick
pub mod Schedule
mod Fair
mod Spawn
pub mod Exit
mod Tests
use vesper.Prelude.{
  ℕ, zero, suc, ◌+◌, ◌*◌, ◌%◌, ◌^◌, Bool, true, false, Option, none, some, List, [], ◌∷◌, Outcome,
  done, panic, ◌>>=◌, get_elem?, set, length, ◌==◌, if◌then◌else◌,
}
use vesper.PageFrame.{Heap, Memory, usize, page_size, zallocate}
use vesper.TrapFrame
use vesper.TrapFrame.{TrapFrame}

abbrev pub stack_pages : ℕ
stack_pages = 2

abbrev pub max_processes : ℕ
max_processes = 16

pub data ProcessState : Type 0 where
  running dead : ProcessState

pub record Process : Type 0 where
  pub frame : TrapFrame
  pub stack : ℕ
  pub pc : ℕ
  pub pid : ℕ
  pub state : ProcessState

pub record Table : Type 0 where
  pub slots : List (Option Process)
  pub current : Option ℕ

pub data SpawnError : Type 0 where
  table_full out_of_memory : SpawnError

pub data SpawnResult : Type 0 where
  spawned : ℕ → SpawnResult
  refused : SpawnError → SpawnResult

-- The statics that spawning reads and writes.
pub record Kernel : Type 0 where
  pub table : Table
  pub next_pid : ℕ
  pub trap_stack_top : ℕ
  pub mem : Memory
  pub heap : Heap

-- The process of a fresh thread; register 2 is `sp`.
unfoldable pub new_process : ℕ → ℕ → ℕ → ℕ → Process
unfolding TrapFrame.empty
new_process entry stack top pid = record {
  frame = record TrapFrame.empty {
    regs = set (TrapFrame.empty).regs 2 (usize (stack + stack_pages * page_size));
    trap_stack = top;
    hartid = 0;
  };
  stack = stack;
  pc = entry;
  pid = pid;
  state = running;
}

-- `for slot in slots.iter_mut() { if slot.is_none() { .. return } }`
unfoldable pub fill_slot : Process → List (Option Process) → Option (List (Option Process))
fill_slot p [] = none
fill_slot p (none ∷ s) = some (some p ∷ s)
fill_slot p (some o ∷ s) = elim (fill_slot p s) [ none ↦ none | some s' ↦ some (some o ∷ s') ]

-- `NEXT_PID.fetch_add(1)` on 16 bits, then the search for an empty slot.
abbrev place : Process → Kernel → Option (List (Option Process)) → SpawnResult × Kernel
place p k none = (refused table_full, k)
place p k (some s) = (spawned p.pid, record k { table = record (k.table) { slots = s } })

abbrev spawn_on : ℕ → Kernel → Option ℕ × Memory × Heap → SpawnResult × Kernel
spawn_on entry k (none, mem, heap) = (refused out_of_memory, record k { mem = mem; heap = heap })
spawn_on entry k (some stack, mem, heap) =
    let p = new_process entry stack k.trap_stack_top k.next_pid in
    place p (record k { next_pid = (k.next_pid + 1) % 2 ^ 16; mem = mem; heap = heap })
      (fill_slot p k.table.slots)

unfoldable pub spawn_kernel : ℕ → Kernel → Outcome (SpawnResult × Kernel)
unfolding new_process fill_slot
spawn_kernel entry k = zallocate stack_pages k.mem k.heap >>= λ r. done (spawn_on entry k r)

abbrev pub is_running : ProcessState → Bool
is_running running = true
is_running dead = false

-- Does the slot hold a process that can run?
abbrev pub runs : Option (Option Process) → Bool
runs (some (some p)) = is_running p.state
runs _ = false

abbrev resume_at : ℕ → Process → Process
resume_at epc p = if is_running p.state then record p { pc = epc } else p

-- The first `if let` of `schedule`; an index out of range panics.
abbrev save_slot : ℕ → ℕ → Table → Option (Option Process) → Outcome Table
save_slot epc idx t none = panic
save_slot epc idx t (some none) = done t
save_slot epc idx t (some (some p)) =
    done (record t { slots = set t.slots idx (some (resume_at epc p)) })

abbrev save_current : ℕ → Table → Option ℕ → Outcome Table
save_current epc t none = done t
save_current epc t (some idx) = save_slot epc idx t (get_elem? t.slots idx)

-- `for offset in offset..n`, with `k` rounds to go.
unfoldable pub pick : List (Option Process) → ℕ → ℕ → ℕ → ℕ → Option ℕ
pick slots n start offset zero = none
pick slots n start offset (suc k) =
    let rest = pick slots n start (offset + 1) k in
    if runs (get_elem? slots ((start + offset) % n)) then some ((start + offset) % n) else rest

-- `table.current.map_or(0, |i| (i + 1) % n)`
abbrev pub first_slot : ℕ → Option ℕ → ℕ
first_slot n none = 0
first_slot n (some i) = (i + 1) % n

abbrev pub slot_pc : Option (Option Process) → ℕ
slot_pc (some (some p)) = p.pc
slot_pc _ = 0

abbrev switch_to : Table → Option ℕ → Option (ℕ × ℕ) × Table
switch_to t none = (none, record t { current = none })
switch_to t (some i) = (some (i, slot_pc (get_elem? t.slots i)), record t { current = some i })

unfoldable pub schedule : ℕ → Table → Outcome (Option (ℕ × ℕ) × Table)
unfolding pick
schedule epc t = save_current epc t t.current >>= λ t'.
    let n = length t'.slots in done (switch_to t' (pick t'.slots n (first_slot n t'.current) 0 n))

-- The two `?` of `exit_current`; its stack is not given back.
abbrev exit_slot : ℕ → Table → Option (Option Process) → Outcome (Option ℕ × Table)
exit_slot idx t none = panic
exit_slot idx t (some none) = done (none, t)
exit_slot idx t (some (some p)) =
    done (some p.pid, record { slots = set t.slots idx none; current = none })

abbrev exit_of : Table → Option ℕ → Outcome (Option ℕ × Table)
exit_of t none = done (none, t)
exit_of t (some idx) = exit_slot idx t (get_elem? t.slots idx)

unfoldable pub exit_current : Table → Outcome (Option ℕ × Table)
exit_current t = exit_of t t.current
