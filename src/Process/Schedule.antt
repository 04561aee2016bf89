-- ===== src/Process/Schedule.antt =====
-- What one call of `schedule` in src/process/table.rs does.
use vesper.Prelude.{
  ℕ, ◌<◌, ◌≡◌, ◌≢◌, refl, sym, ap, ◌∙◌, false, Option, none, some, List, arith, get_elem?, set,
  length, Option-cases, inl, inr, ℕ_discrete, done, ◌>>=◌, length-set, get_elem?-set_self,
  get_elem?-set_ne, get_elem?-some,
}
use vesper.Process.{
  Process, Table, running, dead, is_running, max_processes, resume_at, save_slot, save_current,
  first_slot, slot_pc, switch_to, pick, schedule,
}
use vesper.Process.Pick.{runs_at, Next, pick-Next, pick-none, reach}

-- The table has its fixed size, and the current slot is one of its slots.
pub record IsTable (t : Table) : Type 0 where
  pub sized : length t.slots ≡ max_processes
  pub within : (i : ℕ) → t.current ≡ some i → i < max_processes

-- The resume address is stored in the current process if it runs, and nothing else changes.
pub record Saved (epc : ℕ) (t : Table) (slots : List (Option Process)) : Type 0 where
  pub same_size : length slots ≡ length t.slots
  pub others : (i : ℕ) → t.current ≢ some i → get_elem? slots i ≡ get_elem? t.slots i
  pub own :
      (i : ℕ) (p : Process)
      → t.current ≡ some i
      → get_elem? t.slots i ≡ some (some p)
      → p.state ≡ running
      → get_elem? slots i ≡ some (some (record p { pc = epc }))
  pub dead_kept :
      (i : ℕ) (p : Process)
      → t.current ≡ some i
      → get_elem? t.slots i ≡ some (some p)
      → p.state ≡ dead
      → get_elem? slots i ≡ some (some p)
  pub same_runs : (i : ℕ) → runs_at slots i ≡ runs_at t.slots i

runs-resume_at : (epc : ℕ) (p : Process) → is_running (resume_at epc p).state ≡ is_running p.state
runs-resume_at epc p = ground arith

resumes : (epc : ℕ) (p : Process) → p.state ≡ running → resume_at epc p ≡ record p { pc = epc }
resumes epc p runs = rw runs refl

stays : (epc : ℕ) (p : Process) → p.state ≡ dead → resume_at epc p ≡ p
stays epc p over = rw over refl

save_some :
    (epc idx : ℕ) (t : Table) (p : Process)
    → idx < length t.slots
    → t.current ≡ some idx
    → get_elem? t.slots idx ≡ some (some p)
    → Saved epc t (set t.slots idx (some (resume_at epc p)))
save_some epc idx t p lt cur here =
    let v = some (resume_at epc p) in
    record {
      same_size = length-set t.slots idx v;
      others = λ i ne. get_elem?-set_ne t.slots v (λ e. ne (cur ∙ ap some e));
      own = λ i q is at runs. stored i q is at ∙ ap (λ r. some (some r)) (resumes epc q runs);
      dead_kept = λ i q is at over. stored i q is at ∙ ap (λ r. some (some r)) (stays epc q over);
      same_runs = λ i. elim (ℕ_discrete idx i) [
        | yes e ↦ rw (← e, get_elem?-set_self t.slots idx v lt, here) (runs-resume_at epc p)
        | no e ↦ rw (get_elem?-set_ne t.slots v e)
      ];
    }
  where
    stored :
        (i : ℕ) (q : Process)
        → t.current ≡ some i
        → get_elem? t.slots i ≡ some (some q)
        → get_elem? (set t.slots idx (some (resume_at epc p))) i ≡ some (some (resume_at epc q))
    stored i q is at =
        let e : idx ≡ i = cc in
        let at' : get_elem? t.slots idx ≡ some (some q) = rw e at in
        let same : p ≡ q = cc in
        rw (← e) (
          get_elem?-set_self t.slots idx (some (resume_at epc p)) lt
          ∙ ap (λ r. some (some (resume_at epc r))) same)

save_none :
    (epc : ℕ) (t : Table)
    → ((i : ℕ) (p : Process) → t.current ≡ some i → get_elem? t.slots i ≢ some (some p))
    → Saved epc t t.slots
save_none epc t no_process = record {
  same_size = refl;
  others = λ i ne. refl;
  own = λ i p cur at runs. absurd (no_process i p cur at);
  dead_kept = λ i p cur at over. at;
  same_runs = λ i. refl;
}

save_slot-Saved :
    (epc idx : ℕ) (t : Table) (slot : Option Process)
    → idx < length t.slots
    → t.current ≡ some idx
    → get_elem? t.slots idx ≡ some slot
    → (slots : List (Option Process)) × (save_slot epc idx t (some slot)
        ≡ done (record t { slots = slots }))
      × Saved epc t slots
save_slot-Saved epc idx t none lt cur at = (
  t.slots,
  refl,
  save_none epc t (λ i p is here. let e : idx ≡ i = cc in cc (ap (get_elem? t.slots) e)),
)
save_slot-Saved epc idx t (some p) lt cur at =
    (set t.slots idx (some (resume_at epc p)), refl, save_some epc idx t p lt cur at)

save-Saved :
    (epc : ℕ) (t : Table)
    → IsTable t
    → (slots : List (Option Process)) × (save_current epc t t.current
        ≡ done (record t { slots = slots }))
      × Saved epc t slots
save-Saved epc t v = elim (Option-cases t.current) [
  | inl idle ↦ (t.slots, rw idle, save_none epc t (λ i p cur at. cc))
  | inr (idx, cur) ↦
      let lt : idx < length t.slots = omega (arith, v.sized, v.within idx cur) in
      let (slot, at) = get_elem?-some t.slots idx lt in
      let (slots, e, kept) = save_slot-Saved epc idx t slot lt cur at in
      (slots, ap (save_current epc t) cur ∙ ap (save_slot epc idx t) at ∙ e, kept)
]

-- The outcome of the search: the first slot that can run, with the address it resumes at, or none.
abbrev pub Choice : Table → Option (ℕ × ℕ) → Table → Type 0
Choice t none t' = (t'.current ≡ none) × ((i : ℕ) → i < max_processes → runs_at t.slots i ≡ false)
Choice t (some (i, pc)) t' =
    Next t.slots max_processes (first_slot max_processes t.current) 0 i
    × (i < max_processes)
    × (t'.current ≡ some i)
    × (pc ≡ slot_pc (get_elem? t'.slots i))

schedule_step :
    (epc : ℕ) (t : Table) (slots : List (Option Process))
    → save_current epc t t.current ≡ done (record t { slots = slots })
    → length slots ≡ max_processes
    → schedule epc t
      ≡ done (
          switch_to
            (record t { slots = slots })
            (pick slots max_processes (first_slot max_processes t.current) 0 max_processes))
unfolding schedule
schedule_step epc t slots saved len =
    ap
      (λ m. m >>= λ u.
        let n = length u.slots in done (switch_to u (pick u.slots n (first_slot n u.current) 0 n)))
      saved
    ∙ ap
        (λ n.
          done (switch_to (record t { slots = slots }) (pick slots n (first_slot n t.current) 0 n)))
        len

pub first_slot-lt : (c : Option ℕ) → first_slot max_processes c < max_processes
first_slot-lt none = omega arith
first_slot-lt (some i) = omega arith

Next-same :
    {s s' : List (Option Process)} {n start offset i : ℕ}
    → ((j : ℕ) → runs_at s j ≡ runs_at s' j)
    → Next s n start offset i
    → Next s' n start offset i
Next-same same f = record {
  distance = f.distance;
  behind = f.behind;
  at = f.at;
  able = sym (same _) ∙ f.able;
  skipped = λ e lo hi. sym (same _) ∙ f.skipped e lo hi;
}

-- What a call of `schedule` at `epc` is to do.
abbrev pub Scheduled : ℕ → Table → Type 0
Scheduled epc t =
    (r : Option (ℕ × ℕ)) × (t' : Table) × (schedule epc t ≡ done (r, t'))
    × IsTable t'
    × Saved epc t t'.slots
    × Choice t r t'

module _ (epc : ℕ) (t : Table) (v : IsTable t) {slots : List (Option Process)} where
  -- No slot can run.
  schedule_idle :
      save_current epc t t.current ≡ done (record t { slots = slots })
      → Saved epc t slots
      → pick slots max_processes (first_slot max_processes t.current) 0 max_processes ≡ none
      → Scheduled epc t
  schedule_idle saved kept nobody =
      let start = first_slot max_processes t.current in
      let size : length slots ≡ max_processes = kept.same_size ∙ v.sized in
      let idle : (i : ℕ) → i < max_processes → runs_at t.slots i ≡ false = λ i lt.
        let (d, near, at) = reach max_processes start i (first_slot-lt t.current) lt in
        sym (kept.same_runs i)
        ∙ rw at (
            pick-none slots max_processes start 0 max_processes nobody d (omega arith)
              (omega arith)) in
      (
        none,
        record { slots = slots; current = none },
        schedule_step epc t slots saved size
            ∙ ap (λ r. done (switch_to (record t { slots = slots }) r)) nobody,
        record { sized = size; within = λ i e. cc },
        kept,
        (refl, idle),
      )

  -- The search found a slot.
  schedule_found :
      save_current epc t t.current ≡ done (record t { slots = slots })
      → Saved epc t slots
      → (i : ℕ)
      → pick slots max_processes (first_slot max_processes t.current) 0 max_processes ≡ some i
      → Scheduled epc t
  schedule_found saved kept i found =
      let start = first_slot max_processes t.current in
      let size : length slots ≡ max_processes = kept.same_size ∙ v.sized in
      let (f, near) = pick-Next slots max_processes start 0 max_processes i found in
      let lt : i < max_processes = omega (arith, f.at) in
      (
        some (i, slot_pc (get_elem? slots i)),
        record { slots = slots; current = some i },
        schedule_step epc t slots saved size
            ∙ ap (λ r. done (switch_to (record t { slots = slots }) r)) found,
        record { sized = size; within = λ j e. let same : i ≡ j = cc in rw (← same) lt },
        kept,
        (Next-same kept.same_runs f, lt, refl, refl),
      )

-- `schedule` on a table of the fixed size returns. It stores the resume address in the current
-- process if that can run, leaves every other slot alone, and switches to the first slot that can
-- run in cyclic order behind the current one, at the address stored there; it returns nothing
-- exactly when no slot can run.
pub schedule_lem : (epc : ℕ) (t : Table) → IsTable t → Scheduled epc t
schedule_lem epc t v =
    let (slots, saved, kept) = save-Saved epc t v in
    elim (Option-cases
      (pick slots max_processes (first_slot max_processes t.current) 0 max_processes)) [
        | inl nobody ↦ schedule_idle epc t v saved kept nobody
        | inr (i, found) ↦ schedule_found epc t v saved kept i found
      ]
