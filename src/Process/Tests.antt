-- ===== src/Process/Tests.antt =====
-- A table of three processes on which src/process/table.rs is run, and the theorems at it.
use vesper.Prelude.{
  ℕ, zero, suc, ◌*◌, get_elem?-replicate, ◌<◌, ◌≡◌, ◌≢◌, refl, Option, none, some, [], ◌∷◌, arith,
  get_elem?, set, replicate, done, ◌⊎◌,
}
use vesper.PageFrame.{Heap, Memory, page_size, zallocate, fill_zero}
use vesper.Process.{
  Process, Table, Kernel, running, dead, spawned, refused, table_full, stack_pages, spawn_kernel,
  schedule,
}
use vesper.Process.Schedule.{IsTable}
use vesper.Process.Fair.{Served, schedule-Served}
use vesper.Process.Spawn.{PidsBelow, spawn_kernel_lem, spawn_kernel-PidsBelow}

abbrev thread : ℕ → ℕ → Process
thread pid pc = record {
  frame = record { regs = []; fregs = []; satp = 0; trap_stack = 0; hartid = 0 };
  stack = 0;
  pc = pc;
  pid = pid;
  state = running;
}

-- Slots 0, 1 and 3 are taken, slot 1 by a dead process; slot 0 is current.
abbrev three : Table
three = record {
  slots =
      some (thread 1 100)
      ∷ some (record (thread 2 200) { state = dead })
      ∷ none
      ∷ some (thread 3 300)
      ∷ replicate 12 none;
  current = some 0;
}

three-IsTable : IsTable three
three-IsTable = record { sized = refl; within = λ i e. ground arith }

-- The tick at 104 switches to slot 3, the next one at 304 back to slot 0, at 104.
schedule_runs :
    (schedule 104 three
      ≡ done (
        some (3, 300),
        record { slots = set three.slots 0 (some (thread 1 104)); current = some 3 },
      ))
    × (schedule 304 (record { slots = set three.slots 0 (some (thread 1 104)); current = some 3 })
        ≡ done (
          some (0, 104),
          record {
            slots = set (set three.slots 0 (some (thread 1 104))) 3 (some (thread 3 304));
            current = some 0;
          },
        ))
unfolding schedule
schedule_runs = (refl, refl)

schedule-Served_example : Served 3 (replicate 16 104) three
schedule-Served_example =
    schedule-Served (replicate 16 104) three 3 three-IsTable (omega arith) refl (omega arith)

-- Two free pages, for one stack.
abbrev kernel : Kernel
kernel = record {
  table = three;
  next_pid = 4;
  trap_stack_top = 0x8000_9000;
  mem = λ a. 1;
  heap = record {
    heap_start = 0x8000_0000;
    heap_size = 2 * page_size;
    alloc_start = 0x8000_1000;
    table = 0 ∷ 0 ∷ [];
  };
}

abbrev zeroed : Memory
zeroed = fill_zero 0x8000_1000 1024 (λ a. 1)

abbrev used_heap : Heap
used_heap = record (kernel.heap) { table = 1 ∷ 3 ∷ [] }

stack_found :
    zallocate stack_pages kernel.mem kernel.heap ≡ done (some 0x8000_1000, zeroed, used_heap)
unfolding zallocate
stack_found = refl

abbrev new_thread : Process
new_thread = record {
  frame = record {
    regs = set (replicate 32 0) 2 0x8000_3000;
    fregs = replicate 32 0;
    satp = 0;
    trap_stack = 0x8000_9000;
    hartid = 0;
  };
  stack = 0x8000_1000;
  pc = 500;
  pid = 4;
  state = running;
}

abbrev after : Kernel
after = record {
  table = record three { slots = set three.slots 2 (some new_thread) };
  next_pid = 5;
  trap_stack_top = 0x8000_9000;
  mem = zeroed;
  heap = used_heap;
}

spawn_runs : spawn_kernel 500 kernel ≡ done (spawned 4, after)
unfolding spawn_kernel zallocate
spawn_runs = refl

spawn_kernel_lem_example :
    ((i : ℕ) × (get_elem? three.slots i ≡ some none)
      × ((j : ℕ) → j < i → get_elem? three.slots j ≢ some none)
      × (spawn_kernel 500 kernel
          ≡ done (
            spawned 4,
            record after { table = record three { slots = set three.slots i (some new_thread) } },
          )))
    ⊎ (((j : ℕ) → get_elem? three.slots j ≢ some none)
        × (spawn_kernel 500 kernel ≡ done (refused table_full, record after { table = three })))
spawn_kernel_lem_example = spawn_kernel_lem 500 kernel stack_found

kernel-PidsBelow : PidsBelow 4 three.slots
kernel-PidsBelow zero p at = ground arith
kernel-PidsBelow (suc zero) p at = ground arith
kernel-PidsBelow (suc (suc zero)) p at = ground arith
kernel-PidsBelow (suc (suc (suc zero))) p at = ground arith
kernel-PidsBelow (suc (suc (suc (suc i)))) p at =
    absurd (cc (get_elem?-replicate {A = Option Process} 12 i none at))

spawn_kernel-PidsBelow_example :
    ((i : ℕ) (p : Process) → get_elem? three.slots i ≡ some (some p) → p.pid ≢ 4)
    × PidsBelow 5 after.table.slots
spawn_kernel-PidsBelow_example =
    spawn_kernel-PidsBelow 500 kernel after 4 (omega arith) kernel-PidsBelow spawn_runs
