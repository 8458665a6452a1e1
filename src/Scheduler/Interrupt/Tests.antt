-- ===== src/Scheduler/Interrupt/Tests.antt =====
-- The scheduler with a program, with nothing to do, and with a new thread.
use blesk_os.Common.{◌≡◌, refl, true, false, [], ◌∷◌, arith}
use blesk_os.Scheduler.Threads.{kernel_state, user_state, idle_state}
use blesk_os.Scheduler.Kernel.{KernelSide, kernel_pass, kernel_round, kernel_visit}
use blesk_os.Scheduler.Processes.{UserThread, Process, Cpu}
use blesk_os.Scheduler.User.{user_pass}
use blesk_os.Scheduler.User.Switch.{user_pass-Passed}
use blesk_os.Scheduler.User.Switch as UserSwitch
use blesk_os.Scheduler.Interrupt.{
  to_idle, scheduler_interrupt, scheduler_passes, kernel_step, user_step,
}
use blesk_os.Scheduler.Interrupt.Lists.{IsCpu}
use blesk_os.Scheduler.Interrupt.Decisions.{Decided, decided, scheduler_interrupt-Decided}
use blesk_os.Scheduler.Interrupt.Idle.{AllWaiting, scheduler_interrupt-idle}
use blesk_os.Scheduler.Interrupt.NewThread.{reset, scheduler_interrupt-passed_over}
use blesk_os.Scheduler.Kernel.Tests.{sleeper, cleaner, side, side-IsCounted}

-- A thread that is to be deleted and has no handler, and one that can run.
abbrev closing : UserThread
closing = record {
  address = 80;
  page_directory = 20480;
  counter = 112;
  creation_thread_id = 0;
  id = 1;
  kernel_stack = 16384;
  eip = 0;
  is_blocked = true;
  delete_me = true;
  delete_signal_running = false;
  kill_me = false;
  sleeping = false;
  delete_signal_handler_address = 0;
  time_end_of_sleep = 0;
}

abbrev working : UserThread
working = record {
  address = 96;
  page_directory = 20480;
  counter = 112;
  creation_thread_id = 1;
  id = 2;
  kernel_stack = 24576;
  eip = 0;
  is_blocked = false;
  delete_me = false;
  delete_signal_running = false;
  kill_me = false;
  sleeping = false;
  delete_signal_handler_address = 7;
  time_end_of_sleep = 0;
}

abbrev pub program : Process
program = record {
  address = 64;
  is_blocked = false;
  running_executable = 128;
  number_of_threads = 2;
  main_thread = 80;
  lists =
      record {
        number_of_running_threads = 2;
        tid_bitmap = 3;
        current_thread = 0;
        threads = closing ∷ working ∷ [];
      }
      ∷ [];
}

abbrev pub busy : Cpu
busy = record {
  index = 0;
  scheduler_state = user_state;
  running_thread_state = kernel_state;
  kernel = side;
  processes = program ∷ [];
  current_processes = 0 ∷ [];
  current_user_thread = 80;
  counters = λ c. 2;
  cr3 = 20480;
  freed_directories = [];
  removed_executables = [];
  stopped_directories = [];
  interrupt_thread_handlers = [];
  in_interrupt_thread_handler = false;
}

busy-IsCpu : IsCpu busy
busy-IsCpu = record {
  kernel = side-IsCounted;
  linked = (refl, tt, tt);
  local = ((omega arith, (refl, (refl, tt), (refl, tt, tt))), tt);
  placed = omega arith;
}

user_pass-Passed_example :
    UserSwitch.Passed
      (record { process = program; cpu = busy })
      (user_pass 4096 7 100 (record { process = program; cpu = busy }))
user_pass-Passed_example =
    user_pass-Passed 4096 7 100 (record { process = program; cpu = busy })
      (record { indexed = omega arith; linked = (refl, (refl, tt), (refl, tt, tt)) }) (omega arith)

scheduler_interrupt-Decided_example : Decided (scheduler_interrupt 4096 100 busy)
scheduler_interrupt-Decided_example = scheduler_interrupt-Decided 4096 100 busy busy-IsCpu refl

-- A processor with the cleaning thread only, and how it is left.
abbrev pub quiet_side : KernelSide
quiet_side = record {
  list = record { number_of_running_threads = 1; current_thread = 48; threads = cleaner ∷ [] };
  current_kernel_thread = 48;
  cleaning_thread = 48;
  tid_map = [];
  pointers_to_clean = [];
  freed = [];
}

abbrev quiet : Cpu
quiet = record {
  index = 0;
  scheduler_state = kernel_state;
  running_thread_state = kernel_state;
  kernel = quiet_side;
  processes = [];
  current_processes = 0 ∷ [];
  current_user_thread = 0;
  counters = λ c. 0;
  cr3 = 4096;
  freed_directories = [];
  removed_executables = [];
  stopped_directories = [];
  interrupt_thread_handlers = [];
  in_interrupt_thread_handler = false;
}

quiet-IsCpu : IsCpu quiet
quiet-IsCpu = record {
  kernel = record { linked = (refl, tt, tt); counted = refl; few = omega arith };
  linked = tt;
  local = tt;
  placed = omega arith;
}

abbrev resting : Cpu
resting = record quiet {
  scheduler_state = idle_state;
  running_thread_state = idle_state;
  kernel = reset quiet_side;
}

resting_lem : scheduler_interrupt 4096 100 quiet ≡ decided to_idle resting
unfolding scheduler_interrupt scheduler_passes kernel_step user_step kernel_pass kernel_round
    kernel_visit
resting_lem = refl

scheduler_interrupt-idle_example : AllWaiting 100 resting
scheduler_interrupt-idle_example =
    scheduler_interrupt-idle 4096 100 quiet resting quiet-IsCpu refl refl refl resting_lem

-- An idle processor with a new thread, which can run, as the current one.
abbrev woken_up : Cpu
woken_up = record quiet {
  scheduler_state = idle_state;
  running_thread_state = idle_state;
  kernel = record quiet_side {
    list = record {
      number_of_running_threads = 2;
      current_thread = 32;
      threads = record sleeper { sleeping = false } ∷ cleaner ∷ [];
    };
  };
}

scheduler_interrupt-passed_over_example :
    (s' : Cpu) × (scheduler_interrupt 4096 100 woken_up ≡ decided to_idle s')
    × (s'.kernel ≡ reset woken_up.kernel)
scheduler_interrupt-passed_over_example =
    scheduler_interrupt-passed_over 4096 100 woken_up (refl, (refl, tt), (refl, tt, tt)) refl refl
      refl (refl, tt)
