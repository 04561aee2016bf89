-- ===== src/Trap/Timer.antt =====
-- The timer interrupt in src/arch/riscv64/trap.rs.
use vesper.Prelude.{
  ℕ, ◌+◌, ◌%◌, ◌^◌, ◌<◌, ◌≡◌, refl, ap, true, false, Option, none, some, arith, done, get_elem?,
  ◌⊎◌, inl, inr, ◌∙◌,
}
use vesper.Mmio.{Device}
use vesper.Process.{Process, Table, running, runs, slot_pc, max_processes, first_slot}
use vesper.Process.Pick.{runs_at}
use vesper.Process.Schedule.{IsTable, Saved, Choice, schedule_lem}
use vesper.Minix.{Driver}
use vesper.Syscall.{Next, resume, switch}
use vesper.Virtio.Device.{Shared}
use vesper.Trap.{Machine, tick_next, rearm, timer, m_trap}

-- The slot behind the current one, of sixteen.
abbrev behind : Option ℕ → ℕ
behind none = 0
behind (some i) = (i + 1) % 16

-- Where a tick goes: to the address where it came from with no process current, if none can run, or to the
-- first process that can run from behind the current one on, at the address stored in it.
abbrev pub Turn : ℕ → Table → Table → Next → Type 0
Turn epc t t' n =
    ((t'.current ≡ none) × (n ≡ resume epc) × ((i : ℕ) → i < 16 → runs_at t.slots i ≡ false))
    ⊎ ((i d : ℕ) × (p : Process) × (i ≡ (behind t.current + d) % 16)
        × ((e : ℕ) → e < d → runs_at t.slots ((behind t.current + e) % 16) ≡ false)
        × (get_elem? t'.slots i ≡ some (some p))
        × (p.state ≡ running)
        × (t'.current ≡ some i)
        × (n ≡ switch i p.pc))

first_slot-behind : (c : Option ℕ) → first_slot max_processes c ≡ behind c
first_slot-behind none = refl
first_slot-behind (some i) = refl

runs-process :
    (slot : Option (Option Process))
    → runs slot ≡ true
    → (p : Process) × (slot ≡ some (some p)) × (p.state ≡ running)
runs-process none able = absurd (ground arith)
runs-process (some none) able = absurd (ground arith)
runs-process (some (some p)) able = (p, refl, ground arith)

Choice-Turn :
    (epc : ℕ) (t t' : Table) (r : Option (ℕ × ℕ))
    → Saved epc t t'.slots
    → Choice t r t'
    → Turn epc t t' (tick_next epc r)
Choice-Turn epc t t' none saved (gone, idle) = inl (gone, refl, idle)
Choice-Turn epc t t' (some (i, pc)) saved (f, lt, now, at) =
    let start = first_slot-behind t.current in
    let (p, here, able) = runs-process (get_elem? t'.slots i) (saved.same_runs i ∙ f.able) in
    inr (
      i,
      f.distance,
      p,
      f.at ∙ ap (λ s. (s + f.distance) % 16) start,
      λ e near. rw (← start) (f.skipped e (omega arith) near),
      here,
      able,
      now,
      ap (switch i) (at ∙ ap slot_pc here),
    )

module _ {D : Type 0} (device : Device D) (shared : ℕ → Shared) (driver : Driver) (memory : ℕ → ℕ)
    (fuel : ℕ) where
  -- A machine timer interrupt, on a process table of the fixed size: the timer's compare register is
  -- set 10,000,000 behind the time that is read, modulo 2^64, and the trap returns to the first
  -- process that can run behind the current one, in cyclic order, at the address stored in it, or to
  -- where it came from if there is none. In the current process, if it can run, `epc` is stored as
  -- that address, and no other slot changes; of the machine only the table and the device do.
  pub m_trap-timer :
      (epc tval hart : ℕ) (m : Machine D)
      → IsTable m.table
      → (n : Next) × (t : Table) × (m_trap device shared driver memory fuel epc tval
            (2 ^ 63 + 7)
            hart
            m
          ≡ done (
            n,
            record m {
              table = t;
              io =
                  (device.write) 0x0200_4000
                    (((device.read 0x0200_bff8 m.io).0 + 10_000_000) % 2 ^ 64)
                    ((device.read 0x0200_bff8 m.io).1);
            },
          ))
        × IsTable t
        × Saved epc m.table t.slots
        × Turn epc m.table t n
  unfolding m_trap timer rearm
  m_trap-timer epc tval hart m v =
      let (r, t, ends, after, saved, choice) = schedule_lem epc m.table v in
      (tick_next epc r, t, rw ends refl, after, saved, Choice-Turn epc m.table t r saved choice)
