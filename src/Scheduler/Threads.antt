-- ===== src/Scheduler/Threads.antt =====
-- Threads, their linked lists and the processor of kernel/hardware/devices/cpu/scheduler.h and info.h.
use blesk_os.Common.{ℕ, ◌^◌, Bool, ◌&&◌, List, ltb, sub32}

-- `scheduler_state_t`.
pub data SchedulerState : Type 0 where
  kernel_state : SchedulerState
  user_state : SchedulerState
  idle_state : SchedulerState

-- `kernel_thread_t`.
pub record KernelThread : Type 0 where
  pub address : ℕ
  pub id : ℕ
  pub kernel_stack : ℕ
  pub is_blocked : Bool
  pub kill_me : Bool
  pub sleeping : Bool
  pub time_end_of_sleep : ℕ

-- `kernel_thread_list_t`; the thread `current_thread` is the last one that was looked at.
pub record KernelThreadList : Type 0 where
  pub number_of_running_threads : ℕ
  pub current_thread : ℕ
  pub threads : List KernelThread

abbrev pub thread_address : KernelThread → ℕ
thread_address t = t.address

-- `(int)(actual_time - time_end_of_sleep) > 0`.
abbrev pub is_over : ℕ → ℕ → Bool
is_over time end = let since = sub32 time end in ltb 0 since && ltb since (2 ^ 31)
