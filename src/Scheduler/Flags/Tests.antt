-- ===== src/Scheduler/Flags/Tests.antt =====
-- A thread that sleeps, and a program that is killed.
use blesk_os.Common.{ℕ, ◌≡◌, ◌≢◌, refl, some, [], ◌∷◌, true, false, arith, suc}
use blesk_os.Scheduler.Linked.{unlink_first}
use blesk_os.Scheduler.Kernel.{
  KernelSide, kernel_pass, kernel_round, kernel_visit, kill_kernel_thread,
}
use blesk_os.Scheduler.Kernel.Tests.{sleeper, cleaner, side, side-IsCounted}
use blesk_os.Scheduler.User.{UserSide, local_list, user_pass}
use blesk_os.Scheduler.User.Passes.{rounds_left}
use blesk_os.Scheduler.Interrupt.Tests.{program, busy}
use blesk_os.Scheduler.Flags.{update_sleeping_kernel_thread, kill_process}
use blesk_os.Scheduler.Flags.Sleep.{update_sleeping_kernel_thread-kernel_pass}
use blesk_os.Scheduler.Flags.Kill.{kill_process-user_pass}

-- The cleaning thread is the one that runs while the other thread sleeps.
abbrev sleeping_after : KernelSide
sleeping_after = record {
  list = record {
    number_of_running_threads = 2;
    current_thread = 48;
    threads =
        record sleeper { sleeping = true; time_end_of_sleep = 150 }
        ∷ record cleaner { is_blocked = false }
        ∷ [];
  };
  current_kernel_thread = 48;
  cleaning_thread = 48;
  tid_map = false ∷ true ∷ true ∷ [];
  pointers_to_clean = 4096 ∷ [];
  freed = 16 ∷ [];
}

sleeping_after_lem :
    kernel_pass 13 120 (update_sleeping_kernel_thread 100 32 50 side) ≡ some (48, sleeping_after)
unfolding update_sleeping_kernel_thread kernel_pass kernel_round kernel_visit kill_kernel_thread
    unlink_first
sleeping_after_lem = refl

update_sleeping_kernel_thread-kernel_pass_example : ◌≢◌ {A = ℕ} 48 32
update_sleeping_kernel_thread-kernel_pass_example =
    update_sleeping_kernel_thread-kernel_pass 13 100 120 32 50 48 sleeper side sleeping_after
      side-IsCounted refl refl refl (omega arith) (omega arith) (omega arith) (omega arith)
      sleeping_after_lem

kill_process-user_pass_example :
    let u : UserSide = record { process = kill_process program; cpu = busy } in
    (w : UserSide) × (user_pass 4096 (suc (rounds_left u)) 100 u ≡ some (0, w))
    × ((local_list w).threads ≡ [])
kill_process-user_pass_example =
    kill_process-user_pass 4096 100 program busy (omega arith) (refl, (refl, tt), (refl, tt, tt))
      refl
