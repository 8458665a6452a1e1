-- ===== src/Scheduler/Processes.antt =====
-- Processes and their threads of kernel/hardware/devices/cpu/scheduler.h, and the processor that runs them,
-- `logical_processor_t` of kernel/hardware/devices/cpu/info.h.
use blesk_os.Common.{ℕ, Bool, List, [], get_or}
use blesk_os.Scheduler.Threads.{SchedulerState}
use blesk_os.Scheduler.Kernel.{KernelSide}

-- `user_thread_t`, with the instruction pointer that lies on its kernel stack. The address of the counter
-- `number_of_threads_in_page_directory` is `counter`.
pub record UserThread : Type 0 where
  pub address : ℕ
  pub page_directory : ℕ
  pub counter : ℕ
  pub creation_thread_id : ℕ
  pub id : ℕ
  pub kernel_stack : ℕ
  pub eip : ℕ
  pub is_blocked : Bool
  pub delete_me : Bool
  pub delete_signal_running : Bool
  pub kill_me : Bool
  pub sleeping : Bool
  pub delete_signal_handler_address : ℕ
  pub time_end_of_sleep : ℕ

-- `user_thread_list_t`.
pub record UserThreadList : Type 0 where
  pub number_of_running_threads : ℕ
  pub tid_bitmap : ℕ
  pub current_thread : ℕ
  pub threads : List UserThread

-- `process_t`, with a list of threads for each processor.
pub record Process : Type 0 where
  pub address : ℕ
  pub is_blocked : Bool
  pub running_executable : ℕ
  pub number_of_threads : ℕ
  pub main_thread : ℕ
  pub lists : List UserThreadList

abbrev pub user_address : UserThread → ℕ
user_address t = t.address

abbrev pub process_address : Process → ℕ
process_address p = p.address

-- A list with no threads.
abbrev pub no_list : UserThreadList
no_list = record { number_of_running_threads = 0; tid_bitmap = 0; current_thread = 0; threads = [] }

-- The processor that runs the scheduler, with what it shares with the others: the list of processes,
-- the process each processor is at, the counters of threads in page directories. Page directories
-- that were given back, programs that were removed, and the programs and page directories that
-- `stop_everything_on_page_directory` was called for are kept in the order in which it happened, the
-- last one first.
pub record Cpu : Type 0 where
  pub index : ℕ
  pub scheduler_state : SchedulerState
  pub running_thread_state : SchedulerState
  pub kernel : KernelSide
  pub processes : List Process
  pub current_processes : List ℕ
  pub current_user_thread : ℕ
  pub counters : ℕ → ℕ
  pub cr3 : ℕ
  pub freed_directories : List ℕ
  pub removed_executables : List ℕ
  pub stopped_directories : List (ℕ × ℕ)
  pub interrupt_thread_handlers : List ℕ
  pub in_interrupt_thread_handler : Bool

abbrev pub current_process : Cpu → ℕ
current_process s = get_or s.current_processes s.index 0
