-- ===== src/Scheduler/Interrupt/Idle.antt =====
-- When `scheduler_interrupt` leaves a processor idle.
use blesk_os.Common.{
  ℕ, true, some, [], ◌==◌, All, ◌≡◌, refl, sym, ◌∙◌, subst, arith, Bool-cases, inl, inr,
}
use blesk_os.Scheduler.Threads.{kernel_state, user_state}
use blesk_os.Scheduler.Kernel.{KernelSide}
use blesk_os.Scheduler.Kernel.Rounds.{is_waiting}
use blesk_os.Scheduler.Kernel.Passes.{IsSide}
use blesk_os.Scheduler.Processes.{Cpu}
use blesk_os.Scheduler.Interrupt.{
  Turn, next_pass, switch_user, switch_kernel, to_idle, scheduler_passes, leave_idle,
  scheduler_interrupt,
}
use blesk_os.Scheduler.Interrupt.Lists.{IsCpu}
use blesk_os.Scheduler.Interrupt.Processes.{UserTurn}
use blesk_os.Scheduler.Interrupt.UserPasses.{user_step-UserStepped}
use blesk_os.Scheduler.Interrupt.Threads.{KernelTurn, kernel_step-KernelStepped}
use blesk_os.Scheduler.Interrupt.Decisions.{
  Anything, anywhere, decided, ready, leave_idle-IsCpu, scheduler_interrupt-passes, after,
  scheduler_passes-after,
}

-- No kernel thread of the processor can run.
abbrev pub AllWaiting : ℕ → Cpu → Type 0
AllWaiting time s = All (λ t. is_waiting time t ≡ true) s.kernel.list.threads

module _ (base time : ℕ) (s' : Cpu) where
  third_turn :
      (s : Cpu) (t : Turn)
      → KernelTurn (λ t. is_waiting time t ≡ true) s t
      → after base 0 time t ≡ decided to_idle s'
      → AllWaiting time s'
  unfolding scheduler_passes
  third_turn s (next_pass s2) h e =
      let same : s2.kernel ≡ s'.kernel = ground (arith, e) in
      subst (λ (k : KernelSide). All (λ t. is_waiting time t ≡ true) k.list.threads) same (h.4)
  third_turn s (switch_user a s2) h e = absurd h
  third_turn s (switch_kernel a s2) h e = absurd (ground (arith, e))

  -- A pass through all kernel threads is the last one.
  third_pass :
      (s : Cpu)
      → IsCpu s
      → s.scheduler_state ≡ kernel_state
      → s.kernel.list.current_thread ≡ 0
      → scheduler_passes base 1 time s ≡ decided to_idle s'
      → AllWaiting time s'
  third_pass s v state start e =
      let side : IsSide (λ t. is_waiting time t ≡ true) s.kernel = record {
        sound = v.kernel;
        looked = rw start tt;
      } in
      let done =
        kernel_step-KernelStepped (λ t. is_waiting time t ≡ true) time s (λ t w. w) v side in
      third_turn s (done.0) (done.2)
        (sym (scheduler_passes-after base 0 time s kernel_state (done.0) state (done.1)) ∙ e)

  second_turn :
      (s : Cpu) (t : Turn)
      → (s.index == 0) ≡ true
      → s.kernel.list.current_thread ≡ 0
      → UserTurn s t
      → after base 1 time t ≡ decided to_idle s'
      → AllWaiting time s'
  second_turn s (next_pass s2) first start h e =
      third_pass s2 h.0.sound (h.1 first) (h.0.same_current ∙ start) e
  second_turn s (switch_user a s2) first start h e = absurd (ground (arith, e))
  second_turn s (switch_kernel a s2) first start h e = absurd h

  second_pass :
      (s : Cpu)
      → (s.index == 0) ≡ true
      → IsCpu s
      → s.scheduler_state ≡ user_state
      → s.kernel.list.current_thread ≡ 0
      → scheduler_passes base 2 time s ≡ decided to_idle s'
      → AllWaiting time s'
  second_pass s first v state start e =
      let done = user_step-UserStepped base time s v in
      second_turn s (done.0) first start (done.2)
        (sym (scheduler_passes-after base 1 time s user_state (done.0) state (done.1)) ∙ e)

  first_turn :
      (s : Cpu) (t : Turn)
      → (s.index == 0) ≡ true
      → KernelTurn Anything s t
      → after base 2 time t ≡ decided to_idle s'
      → AllWaiting time s'
  first_turn s (next_pass s2) first h e = second_pass s2 (rw (h.1) first) (h.0) (h.2) (h.3) e
  first_turn s (switch_user a s2) first h e = absurd h
  first_turn s (switch_kernel a s2) first h e = absurd (ground (arith, e))

  first_pass :
      (s : Cpu)
      → (s.index == 0) ≡ true
      → IsCpu s
      → s.scheduler_state ≡ kernel_state
      → scheduler_passes base 3 time s ≡ decided to_idle s'
      → AllWaiting time s'
  first_pass s first v state e =
      let done =
        kernel_step-KernelStepped Anything time s (λ t w. tt) v (anywhere s.kernel v.kernel) in
      first_turn s (done.0) first (done.2)
        (sym (scheduler_passes-after base 2 time s kernel_state (done.0) state (done.1)) ∙ e)

leave_idle-index : (s : Cpu) → (leave_idle s).index ≡ s.index
leave_idle-index s = elim (Bool-cases s.in_interrupt_thread_handler) [
  | inl handled ↦ rw handled refl
  | inr other ↦ rw other refl
]

-- When the interrupt finds processor 0 in the state `SCHEDULER_STATE_KERNEL`, with well-formed
-- lists and no handler threads to run, and leaves it idle, then all its kernel threads are blocked
-- or asleep, and none is to be killed.
pub scheduler_interrupt-idle :
    (base time : ℕ) (s s' : Cpu)
    → IsCpu s
    → s.interrupt_thread_handlers ≡ []
    → (s.index == 0) ≡ true
    → (leave_idle s).scheduler_state ≡ kernel_state
    → scheduler_interrupt base time s ≡ some (to_idle, s')
    → AllWaiting time s'
scheduler_interrupt-idle base time s s' v e first state h =
    first_pass base time s' (ready (leave_idle s)) (rw (leave_idle-index s) first)
      (leave_idle-IsCpu s v) state (sym (scheduler_interrupt-passes base time s e) ∙ h)
