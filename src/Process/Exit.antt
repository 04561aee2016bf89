-- ===== src/Process/Exit.antt =====
-- What `exit_current` of src/process/table.rs does, and the `schedule` that follows it in the syscall.
use vesper.Prelude.{
  ℕ, ◌≡◌, ◌≢◌, refl, sym, ap, ◌∙◌, true, Option, none, some, arith, get_elem?, set, done,
  get_elem?-set_self, get_elem?-set_ne, length-set,
}
use mathlib.Core.Bool.{false≢true}
use vesper.Process.{Process, Table, exit_slot, exit_of, exit_current, schedule, runs, slot_pc}
use vesper.Process.Pick.{runs_at}
use vesper.Process.Schedule.{IsTable, schedule_lem, Choice}

-- The current process leaves its slot empty, and every other slot stays.
pub exit_current_lem :
    (t : Table) (i : ℕ) (p : Process)
    → IsTable t
    → t.current ≡ some i
    → get_elem? t.slots i ≡ some (some p)
    → (t' : Table) × (exit_current t ≡ done (some p.pid, t'))
      × IsTable t'
      × (t'.current ≡ none)
      × (get_elem? t'.slots i ≡ some none)
      × ((j : ℕ) → j ≢ i → get_elem? t'.slots j ≡ get_elem? t.slots j)
unfolding exit_current
exit_current_lem t i p v cur at = (
  record { slots = set t.slots i none; current = none },
  ap (exit_of t) cur ∙ ap (exit_slot i t) at,
  record { sized = length-set t.slots i none ∙ v.sized; within = λ j e. cc },
  refl,
  get_elem?-set_self t.slots i none (omega (arith, v.sized, v.within i cur)),
  λ j ne. get_elem?-set_ne t.slots none (λ e. ne (sym e)),
)

resumed :
    (t t' : Table) (r : Option (ℕ × ℕ))
    → Choice t r t'
    → (j pc : ℕ) → r ≡ some (j, pc)
    → (runs_at t.slots j ≡ true) × (pc ≡ slot_pc (get_elem? t'.slots j))
resumed t t' none c j pc e = absurd (cc)
resumed t t' (some (i, q)) (f, lt, now, at) j pc e =
    let same : i ≡ j = ground arith in
    let address : q ≡ pc = ground arith in (rw (← same) f.able, rw (← same, ← address) at)

-- On a table of the fixed size whose current slot holds a process, `exit_current` returns its PID,
-- and `schedule` behind it returns: the slot is then empty, the other slots are as they were, so
-- that the address given to `schedule` is stored nowhere, and a process that is resumed is another
-- one that can run, at the address where it was preempted.
pub schedule-exit_current :
    (epc : ℕ) (t : Table) (i : ℕ) (p : Process)
    → IsTable t
    → t.current ≡ some i
    → get_elem? t.slots i ≡ some (some p)
    → (t' t'' : Table) × (r : Option (ℕ × ℕ)) × (exit_current t ≡ done (some p.pid, t'))
      × (schedule epc t' ≡ done (r, t''))
      × (get_elem? t''.slots i ≡ some none)
      × ((j : ℕ) → j ≢ i → get_elem? t''.slots j ≡ get_elem? t.slots j)
      × ((j pc : ℕ)
          → r ≡ some (j, pc)
          → (j ≢ i) × (runs_at t.slots j ≡ true) × (pc ≡ slot_pc (get_elem? t.slots j)))
schedule-exit_current epc t i p v cur at =
    let (t', left, v', idle, empty, others) = exit_current_lem t i p v cur at in
    let (r, t'', next, v'', kept, choice) = schedule_lem epc t' v' in
    let same : (j : ℕ) → get_elem? t''.slots j ≡ get_elem? t'.slots j =
      λ j. kept.others j (λ e. cc) in
    (
      t',
      t'',
      r,
      left,
      next,
      same i ∙ empty,
      λ j ne. same j ∙ others j ne,
      λ j pc e.
          let (able, address) = resumed t' t'' r choice j pc e in
          let ne : j ≢ i = λ eq. false≢true (sym (ap runs empty) ∙ rw eq at able) in
          (ne, ap runs (sym (others j ne)) ∙ able, address ∙ ap slot_pc (same j ∙ others j ne)),
    )
