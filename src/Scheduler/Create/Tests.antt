-- ===== src/Scheduler/Create/Tests.antt =====
-- A number and a new thread for a processor that has the cleaning thread only.
use blesk_os.Common.{
  ℕ, ◌<◌, ◌≡◌, refl, Bool, true, false, none, some, List, [], ◌∷◌, ◌*◌, ◌+◌, ◌⊎◌, get_or, replicate,
  length-replicate, arith,
}
use blesk_os.Scheduler.Threads.{KernelThread}
use blesk_os.Scheduler.Kernel.{release_unique_kernel_tid}
use blesk_os.Scheduler.Create.{Created, create_kernel_thread_with_flags}
use blesk_os.Scheduler.Create.Added.{IsNewThread, create_kernel_thread_with_flags-outcome}
use blesk_os.Scheduler.Tids.{
  max_threads_per_processor, find_tid, get_unique_kernel_tid, HasEntries,
  release_unique_kernel_tid-back,
}
use blesk_os.Scheduler.Interrupt.Tests.{quiet_side}

-- A map with one processor and no number taken.
abbrev free_map : List Bool
free_map = replicate 4096 false

free_map-HasEntries : HasEntries 0 free_map
free_map-HasEntries = rw length-replicate (omega arith, omega arith)

first_tid : (get_unique_kernel_tid 0 free_map).0 ≡ 1
unfolding get_unique_kernel_tid find_tid
first_tid = refl

release_unique_kernel_tid-back_example :
    release_unique_kernel_tid
      ((get_unique_kernel_tid 0 free_map).0)
      ((get_unique_kernel_tid 0 free_map).1)
    ≡ free_map
release_unique_kernel_tid-back_example =
    release_unique_kernel_tid-back 0 free_map free_map-HasEntries
      (λ e. absurd (omega (arith, first_tid, e)))

-- A processor with the cleaning thread, and numbers for new threads.
abbrev before : Created
before = record {
  tid_map = free_map;
  list = quiet_side.list;
  words = λ b. 0;
  kernel_stack_pointer = 0;
  ipis = [];
}

create_kernel_thread_with_flags-outcome_example :
    let made =
      create_kernel_thread_with_flags 1000 32 65536 100 0 2000 (5 ∷ 6 ∷ []) 0 false before in
    ((made.0 ≡ none)
      × (made.1 ≡ before)
      × ((j : ℕ)
          → j < max_threads_per_processor
          → get_or free_map (0 * max_threads_per_processor + j) true ≡ true))
    ⊎ ((t : KernelThread) × (made.0 ≡ some t)
        × IsNewThread 1000 32 65536 0 2000 (5 ∷ 6 ∷ []) before t (made.1))
create_kernel_thread_with_flags-outcome_example =
    create_kernel_thread_with_flags-outcome 1000 32 65536 100 0 2000 (5 ∷ 6 ∷ []) 0 false before
      (record {
        entries = free_map-HasEntries;
        linked = (refl, tt, tt);
        counted = refl;
        few = omega arith;
        given = refl;
        apart = (refl, tt);
      })
      (omega arith) (omega arith)
