-- ===== src/Scheduler/Kernel/Tests.antt =====
-- The pass through kernel threads on a list of three.
use blesk_os.Common.{◌≡◌, refl, true, false, some, [], ◌∷◌, arith}
use blesk_os.Scheduler.Threads.{KernelThread}
use blesk_os.Scheduler.Linked.{unlink_first}
use blesk_os.Scheduler.Kernel.{
  KernelSide, kernel_pass, kernel_round, kernel_visit, kill_kernel_thread,
}
use blesk_os.Scheduler.Kernel.Rounds.{is_waiting}
use blesk_os.Scheduler.Kernel.Passes.{IsCounted, IsSide}
use blesk_os.Scheduler.Kernel.Switch.{kernel_pass-Passed}
use blesk_os.Scheduler.Kernel.Switch as KernelSwitch
use blesk_os.Scheduler.Kernel.Kept.{Stays, kernel_pass-Stays}

-- A killed thread, one whose sleep is over at the time 100, and the cleaning thread, which is blocked.
abbrev dying : KernelThread
dying = record {
  address = 16;
  id = 1;
  kernel_stack = 4096;
  is_blocked = false;
  kill_me = true;
  sleeping = false;
  time_end_of_sleep = 0;
}

abbrev pub sleeper : KernelThread
sleeper = record {
  address = 32;
  id = 2;
  kernel_stack = 8192;
  is_blocked = false;
  kill_me = false;
  sleeping = true;
  time_end_of_sleep = 90;
}

abbrev pub cleaner : KernelThread
cleaner = record {
  address = 48;
  id = 3;
  kernel_stack = 12288;
  is_blocked = true;
  kill_me = false;
  sleeping = false;
  time_end_of_sleep = 0;
}

abbrev pub side : KernelSide
side = record {
  list = record {
    number_of_running_threads = 3;
    current_thread = 0;
    threads = dying ∷ sleeper ∷ cleaner ∷ [];
  };
  current_kernel_thread = 16;
  cleaning_thread = 48;
  tid_map = true ∷ true ∷ true ∷ [];
  pointers_to_clean = [];
  freed = [];
}

pub side-IsCounted : IsCounted side
side-IsCounted = record {
  linked = (refl, (refl, (refl, tt)), (refl, (refl, tt), (refl, tt, tt)));
  counted = refl;
  few = omega arith;
}

side-IsSide : IsSide (λ t. is_waiting 100 t ≡ true) side
side-IsSide = record { sound = side-IsCounted; looked = tt }

kernel_pass-Passed_example :
    KernelSwitch.Passed (λ t. is_waiting 100 t ≡ true) (kernel_pass 13 100 side)
kernel_pass-Passed_example = kernel_pass-Passed 13 100 side side-IsSide (omega arith)

abbrev side_after : KernelSide
side_after = record {
  list = record {
    number_of_running_threads = 2;
    current_thread = 32;
    threads = record sleeper { sleeping = false } ∷ record cleaner { is_blocked = false } ∷ [];
  };
  current_kernel_thread = 32;
  cleaning_thread = 48;
  tid_map = false ∷ true ∷ true ∷ [];
  pointers_to_clean = 4096 ∷ [];
  freed = 16 ∷ [];
}

side_after_lem : kernel_pass 13 100 side ≡ some (32, side_after)
unfolding kernel_pass kernel_round kernel_visit kill_kernel_thread unlink_first
side_after_lem = refl

kernel_pass-Stays_example : Stays 48 3 12288 side_after
kernel_pass-Stays_example =
    kernel_pass-Stays 13 100 48 3 12288 32 side side_after side-IsCounted
      (record {
        thread = cleaner;
        listed = refl;
        live = refl;
        same_id = refl;
        same_stack = refl;
        not_freed = tt;
      })
      side_after_lem
