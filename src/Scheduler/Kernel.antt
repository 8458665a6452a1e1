-- ===== src/Scheduler/Kernel.antt =====
-- The pass of `scheduler_interrupt` through the kernel threads of a processor.
pub mod Rounds
pub mod Passes
pub mod Switch
pub mod Kept
pub mod Tests
use blesk_os.Common.{
  ℕ, zero, suc, ◌-◌, ◌^◌, Bool, true, false, Option, none, some, List, [], ◌∷◌, ◌==◌, if◌then◌else◌,
  sub32, set,
}
use blesk_os.Scheduler.Threads.{
  SchedulerState, user_state, KernelThread, KernelThreadList, thread_address, is_over,
}
use blesk_os.Scheduler.Linked.{ahead, without, change, unlink_first}

-- What the pass changes: the list of the processor, with the thread that runs, the thread that cleans,
-- the map of the thread numbers, the pointers to clean and the threads whose block was freed.
pub record KernelSide : Type 0 where
  pub list : KernelThreadList
  pub current_kernel_thread : ℕ
  pub cleaning_thread : ℕ
  pub tid_map : List Bool
  pub pointers_to_clean : List ℕ
  pub freed : List ℕ

abbrev pub change_thread : ℕ → (KernelThread → KernelThread) → KernelSide → KernelSide
change_thread a f k = record k {
  list = record k.list { threads = change thread_address a f k.list.threads };
}

-- `unblock_kernel_thread`.
abbrev pub unblock_kernel_thread : ℕ → KernelSide → KernelSide
unblock_kernel_thread a k = change_thread a (λ t. record t { is_blocked = false }) k

-- `add_pointer_to_clean`.
abbrev pub add_pointer_to_clean : ℕ → KernelSide → KernelSide
add_pointer_to_clean ptr k =
    if ptr == 0
    then k
    else unblock_kernel_thread k.cleaning_thread
        (record k { pointers_to_clean = ptr ∷ k.pointers_to_clean })

-- `release_unique_kernel_tid`.
abbrev pub release_unique_kernel_tid : ℕ → List Bool → List Bool
release_unique_kernel_tid tid map = set map (sub32 tid 1) false

-- A killed thread is taken out; its number and its memory are given back.
unfoldable pub kill_kernel_thread : KernelThread → List KernelThread → KernelSide → KernelSide
kill_kernel_thread t rest k =
    let k1 = record k {
      list = record k.list {
        number_of_running_threads = sub32 k.list.number_of_running_threads 1;
        current_thread = 0;
        threads = rest;
      };
      tid_map = release_unique_kernel_tid t.id k.tid_map;
      current_kernel_thread =
          if k.current_kernel_thread == t.address then 0 else k.current_kernel_thread;
    } in
    let k2 = add_pointer_to_clean t.kernel_stack k1 in record k2 { freed = t.address ∷ k2.freed }

-- What a round of the loop comes to: the end of the list, another round, a thread to switch to, or
-- the fault above.
pub data Round : Type 0 where
  ended : KernelSide → Round
  again : KernelSide → Round
  chosen : ℕ → KernelSide → Round
  fault : Round

-- A thread that is next in the list.
unfoldable pub kernel_visit : List KernelThread → ℕ → KernelThread → KernelSide → Round
kernel_visit added time t k =
    let previous = k.list.current_thread in
    let k1 = record k { list = record k.list { current_thread = t.address } } in
    if t.kill_me
    then if previous == 0
      then elim (unlink_first thread_address added t.address k.list.threads) [
        | none ↦ fault
        | some rest ↦ again (kill_kernel_thread t rest k1)
      ]
      else again (kill_kernel_thread t (without thread_address t.address k.list.threads) k1)
    else if t.is_blocked
    then again k1
    else if t.sleeping
    then if is_over time t.time_end_of_sleep
      then chosen t.address (change_thread t.address (λ s. record s { sleeping = false }) k1)
      else again k1
    else chosen t.address k1

-- A round of the loop.
unfoldable pub kernel_round : List KernelThread → ℕ → KernelSide → Round
kernel_round added time k = elim (ahead thread_address k.list.current_thread k.list.threads) [
  | [] ↦ ended (record k { list = record k.list { current_thread = 0 } })
  | t ∷ rest ↦ kernel_visit added time t k
]

-- The loop, with no threads added by other processors: the thread to switch to, or 0 at the end of
-- the list; `none` is the end of the fuel or a fault.
unfoldable pub kernel_pass : ℕ → ℕ → KernelSide → Option (ℕ × KernelSide)
kernel_pass zero time k = none
kernel_pass (suc fuel) time k = elim (kernel_round [] time k) [
  | ended k' ↦ some (0, k')
  | again k' ↦ kernel_pass fuel time k'
  | chosen a k' ↦ some (a, record k' { current_kernel_thread = a })
  | fault ↦ none
]
