-- ===== src/Scheduler/Interrupt/Decisions.antt =====
-- What `scheduler_interrupt` decides.
use blesk_os.Common.{
  ℕ, zero, suc, true, false, Option, none, some, List, [], ◌∷◌, All, ◌≡◌, refl, sym, ◌∙◌, ap, subst,
  inl, inr, Bool-cases,
}
use blesk_os.Scheduler.Linked.{looked_at}
use blesk_os.Scheduler.Threads.{
  SchedulerState, kernel_state, user_state, idle_state, KernelThread, thread_address,
}
use blesk_os.Scheduler.Kernel.{KernelSide}
use blesk_os.Scheduler.Kernel.Passes.{IsCounted, IsSide}
use blesk_os.Scheduler.Processes.{Cpu}
use blesk_os.Scheduler.Interrupt.{
  Turn, next_pass, switch_user, switch_kernel, state_step, Decision, to_handler, to_user, to_kernel,
  to_idle, scheduler_passes, leave_idle, scheduler_interrupt,
}
use blesk_os.Scheduler.Interrupt.Lists.{IsCpu}
use blesk_os.Scheduler.Interrupt.Processes.{UserChosen, UserTurn}
use blesk_os.Scheduler.Interrupt.UserPasses.{user_step-UserStepped}
use blesk_os.Scheduler.Interrupt.Threads.{KernelChosen, KernelTurn, kernel_step-KernelStepped}

abbrev pub Anything : KernelThread → Type 0
Anything t = Unit

All-Anything : (l : List KernelThread) → All Anything l
All-Anything [] = tt
All-Anything (t ∷ l) = (tt, All-Anything l)

pub anywhere : (k : KernelSide) → IsCounted k → IsSide Anything k
anywhere k v = record {
  sound = v;
  looked = All-Anything (looked_at thread_address k.list.current_thread k.list.threads);
}

abbrev pub decided : Decision → Cpu → Option (Decision × Cpu)
decided d s = some (d, s)

-- The thread that was chosen can run; an idle processor is marked as idle.
abbrev pub Sound : Decision → Cpu → Type 0
Sound (to_handler h) s = s.in_interrupt_thread_handler ≡ true
Sound (to_user a) s = UserChosen a s
Sound (to_kernel a) s = KernelChosen a s
Sound to_idle s = (s.running_thread_state ≡ idle_state) × (s.scheduler_state ≡ idle_state)

abbrev pub Decided : Option (Decision × Cpu) → Type 0
Decided result = (d : Decision) × (s : Cpu) × (result ≡ decided d s) × Sound d s

abbrev Turned : Turn → Type 0
Turned (next_pass s) = IsCpu s
Turned (switch_user a s) = UserChosen a s
Turned (switch_kernel a s) = KernelChosen a s

user-Turned : (s : Cpu) (t : Turn) → UserTurn s t → Turned t
user-Turned s (next_pass s') h = h.0.sound
user-Turned s (switch_user a s') h = h
user-Turned s (switch_kernel a s') h = absurd h

kernel-Turned : (s : Cpu) (t : Turn) → KernelTurn Anything s t → Turned t
kernel-Turned s (next_pass s') h = h.0
kernel-Turned s (switch_user a s') h = absurd h
kernel-Turned s (switch_kernel a s') h = h

abbrev pub ready : Cpu → Cpu
ready s = record s { in_interrupt_thread_handler = false }

pub leave_idle-IsCpu : (s : Cpu) → IsCpu s → IsCpu (ready (leave_idle s))
leave_idle-IsCpu s v = elim (Bool-cases s.in_interrupt_thread_handler) [
  | inl handled ↦
      rw handled
        (record { kernel = v.kernel; linked = v.linked; local = v.local; placed = v.placed })
  | inr other ↦
      rw other (record { kernel = v.kernel; linked = v.linked; local = v.local; placed = v.placed })
]

pub leave_idle-handlers :
    (s : Cpu) → (leave_idle s).interrupt_thread_handlers ≡ s.interrupt_thread_handlers
leave_idle-handlers s = elim (Bool-cases s.in_interrupt_thread_handler) [
  | inl handled ↦ rw handled refl
  | inr other ↦ rw other refl
]

module _ (base : ℕ) where
  step_in :
      (time : ℕ) (s : Cpu) (state : SchedulerState)
      → IsCpu s
      → (t : Turn) × (state_step base time s state ≡ some t) × Turned t
  step_in time s kernel_state v =
      let done =
        kernel_step-KernelStepped Anything time s (λ t w. tt) v (anywhere s.kernel v.kernel) in
      (done.0, done.1, kernel-Turned s (done.0) (done.2))
  step_in time s user_state v =
      let done = user_step-UserStepped base time s v in
      (done.0, done.1, user-Turned s (done.0) (done.2))
  step_in time s idle_state v = (next_pass s, refl, v)

  -- What is decided after a turn, with some passes left.
  abbrev pub after : ℕ → ℕ → Turn → Option (Decision × Cpu)
  after passes time (next_pass s) = scheduler_passes base passes time s
  after passes time (switch_user a s) = some (to_user a, s)
  after passes time (switch_kernel a s) = some (to_kernel a, s)

  pub scheduler_passes-after :
      (passes time : ℕ) (s : Cpu) (state : SchedulerState) (t : Turn)
      → s.scheduler_state ≡ state
      → state_step base time s state ≡ some t
      → scheduler_passes base (suc passes) time s ≡ after passes time t
  unfolding scheduler_passes
  scheduler_passes-after passes time s state t e h =
      ap (λ (o : Option Turn). elim o [ none ↦ none | some turn ↦ after passes time turn ])
        (ap (state_step base time s) e ∙ h)

  turn_onwards :
      (passes time : ℕ) (t : Turn)
      → ((s : Cpu) → IsCpu s → Decided (scheduler_passes base passes time s))
      → Turned t
      → Decided (after passes time t)
  turn_onwards passes time (next_pass s') rest h = rest s' h
  turn_onwards passes time (switch_user a s') rest h = (to_user a, s', refl, h)
  turn_onwards passes time (switch_kernel a s') rest h = (to_kernel a, s', refl, h)

  scheduler_passes-Decided :
      (passes time : ℕ) (s : Cpu) → IsCpu s → Decided (scheduler_passes base passes time s)
  unfolding scheduler_passes
  scheduler_passes-Decided zero time s v = (to_idle, _, refl, (refl, refl))
  scheduler_passes-Decided (suc passes) time s v =
      let turn = step_in time s s.scheduler_state v in
      subst Decided
        (sym (scheduler_passes-after passes time s s.scheduler_state (turn.0) refl (turn.1)))
        (turn_onwards passes time (turn.0) (λ s' v'. scheduler_passes-Decided passes time s' v')
          (turn.2))

  pub scheduler_interrupt-passes :
      (time : ℕ) (s : Cpu)
      → s.interrupt_thread_handlers ≡ []
      → scheduler_interrupt base time s ≡ scheduler_passes base 3 time (ready (leave_idle s))
  unfolding scheduler_interrupt
  scheduler_interrupt-passes time s e =
      ap
        (λ (handlers : List ℕ). elim handlers [
          | [] ↦ scheduler_passes base 3 time (ready (leave_idle s))
          | h ∷ rest ↦ some (
            to_handler h,
            record (leave_idle s) {
              interrupt_thread_handlers = rest;
              in_interrupt_thread_handler = true;
            },
          )
        ])
        (leave_idle-handlers s ∙ e)

  -- With well-formed lists and no handler threads to run, the interrupt comes to a decision: it
  -- switches to a thread that is neither killed nor blocked nor asleep, of the process that the
  -- processor is at or of the kernel, or it marks the processor as idle.
  pub scheduler_interrupt-Decided :
      (time : ℕ) (s : Cpu)
      → IsCpu s
      → s.interrupt_thread_handlers ≡ []
      → Decided (scheduler_interrupt base time s)
  scheduler_interrupt-Decided time s v e =
      subst Decided (sym (scheduler_interrupt-passes time s e))
        (scheduler_passes-Decided 3 time (ready (leave_idle s)) (leave_idle-IsCpu s v))
