-- ===== src/Scheduler/Flags.antt =====
-- The flags of threads: how kernel/hardware/devices/cpu/scheduler.c lets threads sleep, blocks them and
-- marks them to be deleted or killed. The switch to another thread that follows is a call of
-- `scheduler_interrupt`.
pub mod Sleep
pub mod Kill
mod Tests
use blesk_os.Common.{
  ℕ, Bool, true, false, ◌||◌, List, [], ◌∷◌, map, ◌==◌, if◌then◌else◌, add32, get_or, set,
}
use blesk_os.Scheduler.Linked.{change}
use blesk_os.Scheduler.Threads.{SchedulerState, kernel_state, user_state, idle_state, KernelThread}
use blesk_os.Scheduler.Kernel.{KernelSide, change_thread}
use blesk_os.Scheduler.Processes.{
  UserThread, UserThreadList, Process, user_address, process_address, no_list, Cpu, current_process,
}

-- A change of the thread `current_user_thread`, which belongs to the process the processor is at.
abbrev pub change_user_thread : ℕ → (UserThread → UserThread) → Cpu → Cpu
change_user_thread a f s = record s {
  processes =
      change process_address (current_process s)
        (λ p.
          (let l = get_or p.lists s.index no_list in
            record p {
              lists =
                  set p.lists s.index (record l { threads = change user_address a f l.threads });
            }))
        s.processes;
}

abbrev pub change_kernel_thread : ℕ → (KernelThread → KernelThread) → Cpu → Cpu
change_kernel_thread a f s = record s { kernel = change_thread a f s.kernel }

-- `update_sleeping_kernel_thread`.
unfoldable pub update_sleeping_kernel_thread : ℕ → ℕ → ℕ → KernelSide → KernelSide
update_sleeping_kernel_thread time a microseconds k =
    change_thread a (λ t. record t { time_end_of_sleep = add32 time microseconds; sleeping = true })
      k

-- `wake_up_kernel_thread`.
unfoldable pub wake_up_kernel_thread : ℕ → KernelSide → KernelSide
wake_up_kernel_thread a k = change_thread a (λ t. record t { sleeping = false }) k

-- `sleep_for_thread` up to its call of `scheduler_interrupt`, which is left out for no time.
unfoldable pub sleep_for_thread : ℕ → ℕ → Cpu → Cpu
sleep_for_thread time microseconds s =
    if microseconds == 0 then s else elim s.running_thread_state [
      | kernel_state ↦ record s {
        kernel =
            update_sleeping_kernel_thread time s.kernel.current_kernel_thread microseconds s.kernel;
      }
      | user_state ↦
          change_user_thread s.current_user_thread
            (λ t. record t { time_end_of_sleep = add32 time microseconds; sleeping = true }) s
      | idle_state ↦
          change_user_thread s.current_user_thread
            (λ t. record t { time_end_of_sleep = add32 time microseconds; sleeping = true }) s
    ]

-- `block_current_thread_but_keep_going`, and `block_current_thread` up to the switch.
unfoldable pub block_current_thread : Cpu → Cpu
block_current_thread s = elim s.running_thread_state [
  | kernel_state ↦
      change_kernel_thread s.kernel.current_kernel_thread (λ t. record t { is_blocked = true }) s
  | user_state ↦ change_user_thread s.current_user_thread (λ t. record t { is_blocked = true }) s
  | idle_state ↦ s
]

-- `close_current_thread_interrupt` up to its call of `scheduler_interrupt`.
unfoldable pub close_current_thread : Cpu → Cpu
close_current_thread s =
    let close : UserThread → UserThread = (λ t. record t {
      delete_me = true;
      kill_me =
          if t.delete_signal_handler_address == 0 || t.delete_signal_running
          then true
          else t.kill_me;
    }) in
    elim s.running_thread_state [
      | kernel_state ↦
          change_kernel_thread s.kernel.current_kernel_thread (λ t. record t { kill_me = true }) s
      | user_state ↦ change_user_thread s.current_user_thread close s
      | idle_state ↦ change_user_thread s.current_user_thread close s
    ]

-- `kill_current_thread_interrupt` up to its call of `scheduler_interrupt`.
unfoldable pub kill_current_thread : Cpu → Cpu
kill_current_thread s = elim s.running_thread_state [
  | kernel_state ↦
      change_kernel_thread s.kernel.current_kernel_thread (λ t. record t { kill_me = true }) s
  | user_state ↦ change_user_thread s.current_user_thread (λ t. record t { kill_me = true }) s
  | idle_state ↦ change_user_thread s.current_user_thread (λ t. record t { kill_me = true }) s
]

abbrev pub kill_thread : UserThread → UserThread
kill_thread t = record t { kill_me = true }

abbrev pub kill_threads : UserThreadList → UserThreadList
kill_threads l = record l { threads = map kill_thread l.threads }

-- The write through `process->main_thread` to the thread at that address, in the list of whichever
-- processor it is. A main thread that was freed before is in none, and the write goes to memory that
-- is not looked at here.
abbrev pub kill_main_thread : ℕ → UserThreadList → UserThreadList
kill_main_thread a l = record l { threads = change user_address a kill_thread l.threads }

-- `kill_process` on a process. The interrupts that stop the other processors are left out.
unfoldable pub kill_process : Process → Process
kill_process p = record p {
  is_blocked = false;
  lists = map kill_threads (map (kill_main_thread p.main_thread) p.lists);
}
