-- ===== src/Process/Spawn.antt =====
-- What `spawn_kernel` of src/process/table.rs does to the table, the PID counter and the heap.
use vesper.Prelude.{
  ℕ, zero, suc, ◌+◌, ◌*◌, ◌%◌, ◌^◌, ◌<◌, ◌≡◌, ◌≢◌, refl, sym, ap, ◌∙◌, Option, none, some, List, [],
  ◌∷◌, arith, get_elem?, set, replicate, Option-cases, ◌⊎◌, inl, inr, Outcome, done, panic, ◌>>=◌,
  get_elem?-set_self, get_elem?-set_ne, get_elem?-lt, ℕ_discrete,
}
use native.Mathlib.Nat.{ne_of_lt}
use vesper.PageFrame.{Heap, Memory, page_size, zallocate}
use vesper.TrapFrame.{TrapFrame}
use vesper.TrapFrame
use vesper.Process.{
  Process, Kernel, running, spawned, refused, table_full, out_of_memory, stack_pages, new_process,
  fill_slot, place, spawn_on, spawn_kernel,
}

-- The first empty slot is filled.
fill_slot-some :
    (p : Process) (s s' : List (Option Process))
    → fill_slot p s ≡ some s'
    → (i : ℕ) × (get_elem? s i ≡ some none)
      × ((j : ℕ) → j < i → get_elem? s j ≢ some none)
      × (s' ≡ set s i (some p))
unfolding fill_slot
fill_slot-some p [] s' h = ground arith
fill_slot-some p (none ∷ s) s' h = (0, refl, (λ j lt. elim lt [ ]), ground arith)
fill_slot-some p (some o ∷ s) s' h = elim (Option-cases (fill_slot p s)) [
  | inl e ↦ ground arith
  | inr (r, e) ↦
      let (i, here, first, is) = fill_slot-some p s r e in (suc i, here, skip i first, ground arith)
]
  where
    skip :
        (i : ℕ)
        → ((j : ℕ) → j < i → get_elem? s j ≢ some none)
        → (j : ℕ) → j < suc i
        → get_elem? (some o ∷ s) j ≢ some none
    skip i first zero lt = λ e. cc
    skip i first (suc j) lt = first j (omega arith)

fill_slot-none :
    (p : Process) (s : List (Option Process))
    → fill_slot p s ≡ none
    → (j : ℕ) → get_elem? s j ≢ some none
unfolding fill_slot
fill_slot-none p [] h j = λ e. cc
fill_slot-none p (none ∷ s) h j = ground arith
fill_slot-none p (some o ∷ s) h zero = λ e. cc
fill_slot-none p (some o ∷ s) h (suc j) = elim (Option-cases (fill_slot p s)) [
  | inl e ↦ fill_slot-none p s e j
  | inr (r, e) ↦ ground arith
]

pid-new_process : (entry stack top n : ℕ) → (new_process entry stack top n).pid ≡ n
unfolding new_process
pid-new_process entry stack top n = refl

module _ (entry : ℕ) (k : Kernel) {mem : Memory} {heap : Heap} where
  spawn-eq :
      (r : Option ℕ)
      → zallocate stack_pages k.mem k.heap ≡ done (r, mem, heap)
      → spawn_kernel entry k ≡ done (spawn_on entry k (r, mem, heap))
  unfolding spawn_kernel
  spawn-eq r got = ap (λ m. m >>= λ r. done (spawn_on entry k r)) got

  -- With no stack to be had, neither a PID nor a slot is taken.
  pub spawn_kernel-out_of_memory :
      zallocate stack_pages k.mem k.heap ≡ done (none, mem, heap)
      → spawn_kernel entry k ≡ done (refused out_of_memory, record k { mem = mem; heap = heap })
  spawn_kernel-out_of_memory got = spawn-eq none got

  -- Where the stack is granted, in terms of `new_process`.
  spawn_granted :
      {stack : ℕ}
      → zallocate stack_pages k.mem k.heap ≡ done (some stack, mem, heap)
      → let p = new_process entry stack k.trap_stack_top k.next_pid in
        let k' = record k { next_pid = (k.next_pid + 1) % 2 ^ 16; mem = mem; heap = heap } in
        ((i : ℕ) × (get_elem? k.table.slots i ≡ some none)
          × ((j : ℕ) → j < i → get_elem? k.table.slots j ≢ some none)
          × (spawn_kernel entry k
              ≡ done (
                spawned k.next_pid,
                record k' { table = record (k.table) { slots = set k.table.slots i (some p) } },
              )))
        ⊎ (((j : ℕ) → get_elem? k.table.slots j ≢ some none)
            × (spawn_kernel entry k ≡ done (refused table_full, k')))
  spawn_granted {stack} got =
      let p = new_process entry stack k.trap_stack_top k.next_pid in
      let k' : Kernel = record k { next_pid = (k.next_pid + 1) % 2 ^ 16; mem = mem; heap = heap } in
      elim (Option-cases (fill_slot p k.table.slots)) [
        | inl full ↦ inr (
          fill_slot-none p k.table.slots full,
          spawn-eq (some stack) got ∙ ap (λ f. done (place p k' f)) full,
        )
        | inr (s, found) ↦
            let (i, here, first, is) = fill_slot-some p k.table.slots s found in
            let slots = set k.table.slots i (some p) in
            inl (
              i,
              here,
              first,
              spawn-eq (some stack) got
                  ∙ ap (λ f. done (place p k' f)) (found ∙ ap some is)
                  ∙ ap
                      (λ n.
                        done (spawned n, record k' { table = record (k.table) { slots = slots } }))
                      (pid-new_process entry stack k.trap_stack_top k.next_pid),
            )
      ]

  -- Where the stack is granted, the PID counter advances modulo 2^16, and either the first empty
  -- slot takes a process that can run, whose pc is the entry, whose registers are 0 but for sp at the
  -- end of that stack's two pages, whose PID is the old counter and whose traps go to the trap stack
  -- on hart 0; or no slot is empty: then the call returns `TableFull`, the table is as it was, and
  -- the stack stays allocated.
  pub spawn_kernel_lem :
      {stack : ℕ}
      → zallocate stack_pages k.mem k.heap ≡ done (some stack, mem, heap)
      → let p : Process = record {
        frame = record {
          regs = set (replicate 32 0) 2 ((stack + 2 * page_size) % 2 ^ 64);
          fregs = replicate 32 0;
          satp = 0;
          trap_stack = k.trap_stack_top;
          hartid = 0;
        };
        stack = stack;
        pc = entry;
        pid = k.next_pid;
        state = running;
      } in
        let k' = record k { next_pid = (k.next_pid + 1) % 2 ^ 16; mem = mem; heap = heap } in
        ((i : ℕ) × (get_elem? k.table.slots i ≡ some none)
          × ((j : ℕ) → j < i → get_elem? k.table.slots j ≢ some none)
          × (spawn_kernel entry k
              ≡ done (
                spawned k.next_pid,
                record k' { table = record (k.table) { slots = set k.table.slots i (some p) } },
              )))
        ⊎ (((j : ℕ) → get_elem? k.table.slots j ≢ some none)
            × (spawn_kernel entry k ≡ done (refused table_full, k')))
  unfolding new_process TrapFrame.empty
  spawn_kernel_lem {stack} got = spawn_granted got

spawn_kernel-panic :
    (entry : ℕ) (k : Kernel)
    → zallocate stack_pages k.mem k.heap ≡ panic
    → spawn_kernel entry k ≡ panic
unfolding spawn_kernel
spawn_kernel-panic entry k e = ap (λ m. m >>= λ r. done (spawn_on entry k r)) e

-- Every live PID is one that was handed out before.
abbrev pub PidsBelow : ℕ → List (Option Process) → Type 0
PidsBelow n slots = (i : ℕ) (p : Process) → get_elem? slots i ≡ some (some p) → p.pid < n

set-PidsBelow :
    (n i : ℕ) (slots : List (Option Process)) (new : Process)
    → PidsBelow n slots
    → new.pid ≡ n
    → get_elem? slots i ≡ some none
    → PidsBelow (n + 1) (set slots i (some new))
set-PidsBelow n i slots new below is empty j q at = elim (ℕ_discrete i j) [
  | yes here ↦
      let own : get_elem? (set slots i (some new)) i ≡ some (some new) =
        get_elem?-set_self slots i (some new) (get_elem?-lt slots i empty) in
      let same : new ≡ q = cc (own, at, ap (get_elem? (set slots i (some new))) here) in
      omega (arith, is, ap (λ (p : Process). p.pid) same)
  | no other ↦ omega (arith, below j q (sym (get_elem?-set_ne slots (some new) other) ∙ at))
]

-- A spawn that succeeds had a stack.
spawned-stack :
    (entry : ℕ) (k k' : Kernel) (pid : ℕ)
    → spawn_kernel entry k ≡ done (spawned pid, k')
    → (stack : ℕ) × (mem : Memory) × (heap : Heap) × (zallocate stack_pages k.mem k.heap
        ≡ done (some stack, mem, heap))
spawned-stack entry k k' pid ok = go (zallocate stack_pages k.mem k.heap) refl
  where
    go :
        (m : Outcome (Option ℕ × Memory × Heap))
        → zallocate stack_pages k.mem k.heap ≡ m
        → (stack : ℕ) × (mem : Memory) × (heap : Heap) × (zallocate stack_pages k.mem k.heap
            ≡ done (some stack, mem, heap))
    go (done (some stack, mem, heap)) e = (stack, mem, heap, e)
    go (done (none, mem, heap)) e = absurd (cc (spawn_kernel-out_of_memory entry k e))
    go panic e = absurd (cc (spawn_kernel-panic entry k e))

-- If the PID counter does not wrap and all PIDs in the table are below it, a spawn that succeeds
-- hands out a PID that no process in the table has, and all PIDs are below the counter afterwards.
pub spawn_kernel-PidsBelow :
    (entry : ℕ) (k k' : Kernel) (pid : ℕ)
    → k.next_pid + 1 < 2 ^ 16
    → PidsBelow k.next_pid k.table.slots
    → spawn_kernel entry k ≡ done (spawned pid, k')
    → ((i : ℕ) (p : Process) → get_elem? k.table.slots i ≡ some (some p) → p.pid ≢ pid)
      × PidsBelow k'.next_pid k'.table.slots
spawn_kernel-PidsBelow entry k k' pid room below ok =
    let (stack, mem, heap, got) = spawned-stack entry k k' pid ok in
    elim (spawn_granted entry k got) [
      | inl (i, here, first, e) ↦
          let new = new_process entry stack k.trap_stack_top k.next_pid in
          let same : pid ≡ k.next_pid = ground arith in
          let after : k'.table.slots ≡ set k.table.slots i (some new) = ground arith in
          let count : k'.next_pid ≡ k.next_pid + 1 = ground arith in
          (
            λ j p at eq. ne_of_lt (below j p at) (eq ∙ same),
            rw (count, after)
                (set-PidsBelow k.next_pid i k.table.slots new below
                  (pid-new_process entry stack k.trap_stack_top k.next_pid) here),
          )
      | inr (full, e) ↦ absurd (cc)
    ]
