-- ===== src/Syscall/Exit.antt =====
-- The `exit` call of src/process/syscall.rs.
use vesper.Prelude.{
  ℕ, ◌≡◌, ◌≢◌, ap, ◌∙◌, true, Option, none, some, [], ◌∷◌, done, ◌>>=◌, get_or, get_elem?,
}
use vesper.PageFrame.{Heap}
use vesper.TrapFrame.{TrapFrame}
use vesper.Process.{Process, Table, slot_pc}
use vesper.Process.Pick.{runs_at}
use vesper.Process.Schedule.{IsTable}
use vesper.Process.Exit.{schedule-exit_current}
use vesper.Minix.{Driver}
use vesper.Syscall.{exited, next_of, exit_reply, exit_call, after_exit, do_syscall}

-- The exit call of a current process, on a table of the fixed size, empties its slot, reports its PID,
-- and never goes back to it: it parks, or switches to another process that can run, at the address where
-- that one was preempted.
pub do_syscall-exit :
    (driver : Driver) (memory : ℕ → ℕ) (epc : ℕ) (frame : TrapFrame) (t : Table) (h : Heap) (i : ℕ)
    (p : Process)
    → get_or frame.regs 10 0 ≡ 93
    → IsTable t
    → t.current ≡ some i
    → get_elem? t.slots i ≡ some (some p)
    → (t' : Table) × (r : Option (ℕ × ℕ)) × (do_syscall driver memory epc frame t h
        ≡ done (record {
          next = next_of r;
          frame = frame;
          table = t';
          heap = h;
          buffer = none;
          output = exited p.pid ∷ [];
        }))
      × (get_elem? t'.slots i ≡ some none)
      × ((j pc : ℕ)
          → r ≡ some (j, pc)
          → (j ≢ i) × (runs_at t.slots j ≡ true) × (pc ≡ slot_pc (get_elem? t.slots j)))
unfolding do_syscall exit_call
do_syscall-exit driver memory epc frame t h i p num v cur at =
    let (t', t'', r, left, next, empty, others, other) = schedule-exit_current epc t i p v cur at in
    (
      t'',
      r,
      rw num (
          ap (λ m. m >>= after_exit driver memory epc frame t h) left
          ∙ ap (λ m. m >>= λ s. done (exit_reply driver memory epc frame t h (exited p.pid ∷ []) s))
              next),
      empty,
      other,
    )
