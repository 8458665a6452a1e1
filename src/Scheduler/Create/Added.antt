-- ===== src/Scheduler/Create/Added.antt =====
-- What `create_kernel_thread_with_flags` makes, and when it fails.
use blesk_os.Common.{
  ℕ, suc, ◌+◌, ◌*◌, ◌^◌, ◌<◌, ◌≤◌, Bool, true, false, not, Option, none, some, List, ◌∷◌, length,
  get_or, All, ◌==◌, if◌then◌else◌, add32, ◌≡◌, refl, ◌⊎◌, inl, inr, arith, Bool-cases,
}
use blesk_os.Scheduler.Threads.{KernelThread, thread_address}
use blesk_os.Scheduler.Linked.{IsLinked}
use blesk_os.Scheduler.Tids.{
  max_threads_per_processor, get_unique_kernel_tid, GivenTid, HasEntries,
  get_unique_kernel_tid-outcome,
}
use blesk_os.Scheduler.Create.{
  kernel_stack_size, interrupt_stack_size, new_stack, Created, add_thread,
  create_kernel_thread_with_flags,
}
use blesk_os.Scheduler.Create.Stacks.{IsThreadStack, new_stack-IsThreadStack}

-- The list of the processor is well formed and counted right, and the new thread is not in it.
pub record HasRoom (address processor : ℕ) (c : Created) : Type 0 where
  pub entries : HasEntries processor c.tid_map
  pub linked : IsLinked thread_address c.list.threads
  pub counted : c.list.number_of_running_threads ≡ length c.list.threads
  pub few : length c.list.threads + 1 < 2 ^ 32
  pub given : (address == 0) ≡ false
  pub apart : All (λ t. (t.address == address) ≡ false) c.list.threads

-- The thread stands at the front of a well-formed list, has a number that was free, and its stack starts
-- its function.
pub record IsNewThread (close address kernel_stack processor function : ℕ) (arguments : List ℕ)
    (c : Created) (t : KernelThread) (d : Created) : Type 0 where
  pub at_front : d.list.threads ≡ t ∷ c.list.threads
  pub still_linked : IsLinked thread_address d.list.threads
  pub still_counted : d.list.number_of_running_threads ≡ length d.list.threads
  pub same_address : t.address ≡ address
  pub numbered :
      GivenTid
        (processor * max_threads_per_processor)
        max_threads_per_processor
        c.tid_map
        (t.id, d.tid_map)
  pub live : t.kill_me ≡ false
  pub started :
      IsThreadStack close function
        (kernel_stack + kernel_stack_size)
        arguments
        c.words
        (record { pointer = d.kernel_stack_pointer; words = d.words })
  pub current :
      d.list.current_thread
      ≡ (if c.list.current_thread == 0 then t.address else c.list.current_thread)
  pub sent : d.ipis ≡ (if c.list.current_thread == 0 then processor ∷ c.ipis else c.ipis)

-- The pair of a thread, or none, and what changed.
abbrev outcome : Option KernelThread → Created → Option KernelThread × Created
outcome t c = (t, c)

module _ (close address kernel_stack time processor function : ℕ) (arguments : List ℕ)
    (microseconds : ℕ) (is_blocked : Bool) (c : Created) where
  abbrev made : Option KernelThread × Created
  made =
      create_kernel_thread_with_flags close address kernel_stack time processor function arguments
        microseconds is_blocked c

  -- For a well-formed list with room, a new address and a stack that is big enough: the creation of
  -- a thread fails exactly when all numbers of the processor are taken, and then it changes
  -- nothing; else it puts a new thread, with the first free number, to the front of the list, which
  -- stays well formed, with a stack that starts its function with its arguments, and makes it the
  -- current one if there is none.
  pub create_kernel_thread_with_flags-outcome :
      HasRoom address processor c
      → kernel_stack + kernel_stack_size < 2 ^ 32
      → 4 * length arguments + 4 + interrupt_stack_size ≤ kernel_stack_size
      → ((made.0 ≡ none)
          × (made.1 ≡ c)
          × ((j : ℕ)
              → j < max_threads_per_processor
              → get_or c.tid_map (processor * max_threads_per_processor + j) true ≡ true))
        ⊎ ((t : KernelThread) × (made.0 ≡ some t)
            × IsNewThread close address kernel_stack processor function arguments c t (made.1))
  unfolding create_kernel_thread_with_flags add_thread
  create_kernel_thread_with_flags-outcome v fits enough =
      elim (get_unique_kernel_tid-outcome processor c.tid_map v.entries) [
        | inl full ↦
            let zero_tid : ((get_unique_kernel_tid processor c.tid_map).0 == 0) ≡ true =
              ground (arith, full.no_tid) in
            inl (rw zero_tid refl, rw (zero_tid, full.same_map) refl, full.all_taken)
        | inr tid ↦
            let some_tid : ((get_unique_kernel_tid processor c.tid_map).0 == 0) ≡ false =
              ground (arith, tid.tid) in
            let numbered = get_unique_kernel_tid processor c.tid_map in
            let t : KernelThread = record {
              address = address;
              id = numbered.0;
              kernel_stack = kernel_stack;
              is_blocked = is_blocked;
              kill_me = false;
              sleeping = not (microseconds == 0);
              time_end_of_sleep = if microseconds == 0 then 0 else add32 time microseconds;
            } in
            let stack = new_stack close kernel_stack function arguments c.words in
            let one_more : add32 c.list.number_of_running_threads 1 ≡ suc (length c.list.threads) =
              ground (arith, v.counted, v.few) in
            elim (Bool-cases (c.list.current_thread == 0)) [
              | inl first ↦ inr (
                t,
                rw some_tid refl,
                rw (some_tid, first)
                    (record {
                      at_front = refl;
                      still_linked = (v.given, v.apart, v.linked);
                      still_counted = one_more;
                      same_address = refl;
                      numbered = tid;
                      live = refl;
                      started =
                          new_stack-IsThreadStack close kernel_stack function arguments c.words fits
                            enough;
                      current = rw first refl;
                      sent = rw first refl;
                    }),
              )
              | inr busy ↦ inr (
                t,
                rw some_tid refl,
                rw (some_tid, busy)
                    (record {
                      at_front = refl;
                      still_linked = (v.given, v.apart, v.linked);
                      still_counted = one_more;
                      same_address = refl;
                      numbered = tid;
                      live = refl;
                      started =
                          new_stack-IsThreadStack close kernel_stack function arguments c.words fits
                            enough;
                      current = rw busy refl;
                      sent = rw busy refl;
                    }),
              )
            ]
      ]
