-- ===== src/Scheduler/Interrupt/Threads.antt =====
-- What a pass of `scheduler_interrupt` through kernel threads comes to.
use blesk_os.Common.{ℕ, suc, true, Option, some, ◌==◌, All, ◌≡◌, refl, inl, inr, arith, Bool-cases}
use blesk_os.Scheduler.Threads.{kernel_state, user_state, KernelThread}
use blesk_os.Scheduler.Kernel.Rounds.{is_waiting}
use blesk_os.Scheduler.Kernel.Passes.{IsSide, rounds_left}
use blesk_os.Scheduler.Kernel.Switch.{kernel_pass-outcome}
use blesk_os.Scheduler.Kernel.Switch as KernelSwitch
use blesk_os.Scheduler.Processes.{Cpu}
use blesk_os.Scheduler.Interrupt.{Turn, next_pass, switch_user, switch_kernel, kernel_step}
use blesk_os.Scheduler.Interrupt.Lists.{IsCpu}

-- A thread of the kernel was chosen.
pub record KernelChosen (a : ℕ) (s : Cpu) : Type 0 where
  pub switched : KernelSwitch.Switched a s.kernel
  pub running : s.running_thread_state ≡ kernel_state

abbrev pub KernelTurn : (KernelThread → Type 0) → Cpu → Turn → Type 0
KernelTurn P s (next_pass s') =
    IsCpu s'
    × (s'.index ≡ s.index)
    × (s'.scheduler_state ≡ user_state)
    × (s'.kernel.list.current_thread ≡ 0)
    × All P s'.kernel.list.threads
KernelTurn P s (switch_user a s') = ⊥
KernelTurn P s (switch_kernel a s') = KernelChosen a s'

abbrev pub KernelStepped : (KernelThread → Type 0) → Cpu → Option Turn → Type 0
KernelStepped P s result = (t : Turn) × (result ≡ some t) × KernelTurn P s t

-- In the state `SCHEDULER_STATE_KERNEL` the pass has a result.
pub kernel_step-KernelStepped :
    (P : KernelThread → Type 0) (time : ℕ) (s : Cpu)
    → ((t : KernelThread) → is_waiting time t ≡ true → P t)
    → IsCpu s
    → IsSide P s.kernel
    → KernelStepped P s (kernel_step time s)
unfolding kernel_step
kernel_step-KernelStepped P time s w v side =
    let done =
      kernel_pass-outcome P (suc (rounds_left s.kernel)) time s.kernel w side (omega arith) in
    elim (Bool-cases (done.0 == 0)) [
      | inl over ↦ elim (done.4) [
        | inl switched ↦ absurd (ground (arith, switched.at_thread, over))
        | inr ended ↦ (
          next_pass (record s { kernel = done.1; scheduler_state = user_state }),
          rw (kernel_step, done.2, over) refl,
          (
            record { kernel = done.3; linked = v.linked; local = v.local; placed = v.placed },
            refl,
            refl,
            ended.from_start,
            ended.all_waiting,
          ),
        )
      ]
      | inr chosen ↦ elim (done.4) [
        | inl switched ↦ (
          switch_kernel (done.0)
              (record s { kernel = done.1; running_thread_state = kernel_state }),
          rw (kernel_step, done.2, chosen) refl,
          record { switched = switched; running = refl },
        )
        | inr ended ↦ absurd (ground (arith, ended.no_thread, chosen))
      ]
    ]
