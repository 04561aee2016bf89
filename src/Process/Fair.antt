-- ===== src/Process/Fair.antt =====
-- Timer ticks in sequence: the round robin of `schedule` in src/process/table.rs.
use vesper.Prelude.{
  ℕ, ◌+◌, ◌-◌, ◌%◌, ◌<◌, ◌≤◌, ◌≡◌, sym, ap, ◌∙◌, Bool, true, false, Option, none, some, List, [],
  ◌∷◌, arith, length, ◌==◌, ◌⊎◌, inl, inr, dec_lt, ℕ_discrete, done,
}
use mathlib.Core.Bool.{false≢true}
use vesper.Process.{Table, max_processes, first_slot, schedule}
use vesper.Process.Pick.{runs_at, reach}
use vesper.Process.Schedule.{IsTable, Choice, schedule_lem, first_slot-lt}

abbrev chosen : ℕ → Option (ℕ × ℕ) → Bool
chosen j none = false
chosen j (some (i, pc)) = i == j

-- Is slot `j` switched to in one of a sequence of timer ticks, which interrupt at the addresses `epcs`?
abbrev pub Served : ℕ → List ℕ → Table → Type 0
Served j [] t = ⊥
Served j (epc ∷ epcs) t =
    (r : Option (ℕ × ℕ)) × (t' : Table) × (schedule epc t ≡ done (r, t'))
    × ((chosen j r ≡ true) ⊎ Served j epcs t')

-- One tick serves the slot or brings the search nearer to it.
nearer :
    (t t' : Table) (j d : ℕ) (r : Option (ℕ × ℕ))
    → runs_at t.slots j ≡ true
    → j ≡ (first_slot max_processes t.current + d) % max_processes
    → Choice t r t'
    → (chosen j r ≡ true)
      ⊎ ((e : ℕ) × (e < d) × (j ≡ (first_slot max_processes t'.current + e) % max_processes))
nearer t t' j d none able at (gone, idle) = absurd (false≢true (sym (idle j (omega arith)) ∙ able))
nearer t t' j d (some (i, pc)) able at (f, lt, now, resumed) = elim (dec_lt d f.distance) [
  | yes early ↦
      absurd
        (false≢true (sym (f.skipped d (omega arith) early) ∙ ap (runs_at t.slots) (sym at) ∙ able))
  | no reached ↦ elim (ℕ_discrete f.distance d) [
    | yes same ↦ inl (ground (arith, f.at))
    | no before ↦ inr (d - f.distance - 1, omega arith, rw now (omega (arith, f.at)))
  ]
]

-- Slot `j` is served within as many ticks as it is steps away from where the search begins.
Served-nearer :
    (epcs : List ℕ) (t : Table) (j d : ℕ)
    → IsTable t
    → runs_at t.slots j ≡ true
    → j ≡ (first_slot max_processes t.current + d) % max_processes
    → d < length epcs
    → Served j epcs t
Served-nearer [] t j d v able at enough = elim enough [ ]
Served-nearer (epc ∷ epcs) t j d v able at enough =
    let (r, t', step, v', kept, choice) = schedule_lem epc t v in
    (
      r,
      t',
      step,
      elim (nearer t t' j d r able at choice) [
        | inl here ↦ inl here
        | inr (e, less, at') ↦
            inr (Served-nearer epcs t' j e v' (kept.same_runs j ∙ able) at' (omega arith))
      ],
    )

-- On a table of the fixed size, a process that can run is switched to by one of any sequence of at
-- least `max_processes` timer ticks, whatever addresses they interrupt at; no tick panics before
-- that.
pub schedule-Served :
    (epcs : List ℕ) (t : Table) (j : ℕ)
    → IsTable t
    → j < max_processes
    → runs_at t.slots j ≡ true
    → max_processes ≤ length epcs
    → Served j epcs t
schedule-Served epcs t j v lt able enough =
    let (d, near, at) =
      reach max_processes (first_slot max_processes t.current) j (first_slot-lt t.current) lt in
    Served-nearer epcs t j d v able at (omega arith)
