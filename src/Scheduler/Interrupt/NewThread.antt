-- ===== src/Scheduler/Interrupt/NewThread.antt =====
-- The passes of `scheduler_interrupt` do not always look at every thread.
use blesk_os.Common.{
  ℕ, zero, suc, ◌<◌, true, false, some, List, [], ◌∷◌, ◌==◌, All, length, ◌≡◌, refl, ◌∙◌, ap, arith,
  Bool-cases, inl, inr,
}
use blesk_os.Scheduler.Linked.{ahead, IsLinked}
use blesk_os.Scheduler.Linked.Chain.{ahead-ahead, ahead-nonzero}
use blesk_os.Scheduler.Threads.{kernel_state, user_state, idle_state, KernelThread, thread_address}
use blesk_os.Scheduler.Kernel.{KernelSide, kernel_pass}
use blesk_os.Scheduler.Kernel.Rounds.{
  is_waiting, remaining, moved, at_end, kills, passes, takes, wakes, kernel_round-Outcome,
}
use blesk_os.Scheduler.Kernel.Passes.{rounds_left}
use blesk_os.Scheduler.Processes.{Process, process_address, Cpu, current_process}
use blesk_os.Scheduler.Interrupt.{
  next_pass, set_place, check_kernel, kernel_step, user_step, to_idle, scheduler_passes, leave_idle,
  scheduler_interrupt,
}
use blesk_os.Scheduler.Interrupt.Decisions.{
  decided, ready, scheduler_passes-after, scheduler_interrupt-passes,
}

-- The list from the start.
abbrev pub reset : KernelSide → KernelSide
reset k = record k { list = record k.list { current_thread = 0 } }

waits-live : (time : ℕ) (t : KernelThread) → is_waiting time t ≡ true → t.kill_me ≡ false
waits-live time t h = ground (arith, h)

-- A pass with only waiting threads ahead ends.
kernel_pass-waiting :
    (fuel time : ℕ) (k : KernelSide)
    → IsLinked thread_address k.list.threads
    → All (λ t. is_waiting time t ≡ true) (remaining k)
    → length (remaining k) < fuel
    → kernel_pass fuel time k ≡ some (0, reset k)
unfolding kernel_pass
kernel_pass-waiting zero time k v h b = absurd (omega arith)
kernel_pass-waiting (suc fuel) time k v h b = elim (kernel_round-Outcome time k) [
  | at_end e r ↦ rw (kernel_pass, r) refl
  | kills t rest e kill r ↦
      let all : All (λ s. is_waiting time s ≡ true) (t ∷ rest) = rw e at h in
      absurd (ground (arith, waits-live time t (all.0), kill))
  | passes t rest e waiting r ↦
      let all : All (λ s. is_waiting time s ≡ true) (t ∷ rest) = rw e at h in
      let behind_it = ahead-ahead thread_address k.list.current_thread t k.list.threads rest v e in
      let nonzero = ahead-nonzero thread_address k.list.current_thread t k.list.threads rest v e in
      let left : remaining (moved t k) ≡ rest = rw (nonzero, behind_it) refl in
      let fits : suc (length rest) < suc fuel = rw e at b in
      rw (kernel_pass, r)
        (kernel_pass-waiting fuel time (moved t k) v (rw left (all.1))
          (rw left (omega (arith, fits))))
  | takes t rest e live free awake r ↦
      let all : All (λ s. is_waiting time s ≡ true) (t ∷ rest) = rw e at h in
      absurd (ground (arith, all.0, live, free, awake))
  | wakes t rest e live free over r ↦
      let all : All (λ s. is_waiting time s ≡ true) (t ∷ rest) = rw e at h in
      absurd (ground (arith, all.0, live, free, over))
]

kernel_step-waiting :
    (time : ℕ) (s : Cpu)
    → IsLinked thread_address s.kernel.list.threads
    → All (λ t. is_waiting time t ≡ true) (remaining s.kernel)
    → kernel_step time s
      ≡ some (next_pass (record s { kernel = reset s.kernel; scheduler_state = user_state }))
unfolding kernel_step
kernel_step-waiting time s v h =
    let pass = kernel_pass-waiting (suc (rounds_left s.kernel)) time s.kernel v h (omega arith) in
    rw (kernel_step, pass) refl

nothing_ahead : (a : ℕ) (l : List Process) → l ≡ [] → ahead process_address a l ≡ []
nothing_ahead a l e =
    rw e (elim (Bool-cases (a == 0)) [ inl start ↦ rw start refl | inr inside ↦ rw inside refl ])

user_step-empty :
    (base time : ℕ) (s : Cpu)
    → s.processes ≡ []
    → user_step base [] time s ≡ some (next_pass (check_kernel (set_place 0 s)))
unfolding user_step
user_step-empty base time s e =
    let ended = nothing_ahead (current_process s) s.processes e in rw (user_step, ended) refl

-- The passes of a processor with no programs that looks at them first.
late_passes :
    (base time : ℕ) (s : Cpu)
    → IsLinked thread_address s.kernel.list.threads
    → s.processes ≡ []
    → s.scheduler_state ≡ user_state
    → All (λ t. is_waiting time t ≡ true) (remaining s.kernel)
    → (s' : Cpu) × (scheduler_passes base 3 time s ≡ decided to_idle s')
      × (s'.kernel ≡ reset s.kernel)
unfolding scheduler_passes
late_passes base time s v e state h =
    let s1 : Cpu = check_kernel (set_place 0 s) in
    let s2 : Cpu = record s1 { kernel = reset s1.kernel; scheduler_state = user_state } in
    let s3 : Cpu = check_kernel (set_place 0 s2) in
    let one =
      scheduler_passes-after base 2 time s user_state (next_pass s1) state
        (user_step-empty base time s e) in
    let two =
      scheduler_passes-after base 1 time s1 kernel_state (next_pass s2) refl
        (kernel_step-waiting time s1 v h) in
    let three =
      scheduler_passes-after base 0 time s2 user_state (next_pass s3) refl
        (user_step-empty base time s2 e) in
    (
      record s3 { running_thread_state = idle_state; scheduler_state = idle_state; cr3 = base },
      one ∙ two ∙ three,
      refl,
    )

leave_idle-kernel : (s : Cpu) → (leave_idle s).kernel ≡ s.kernel
leave_idle-kernel s = elim (Bool-cases s.in_interrupt_thread_handler) [
  | inl handled ↦ rw handled refl
  | inr other ↦ rw other refl
]

leave_idle-processes : (s : Cpu) → (leave_idle s).processes ≡ s.processes
leave_idle-processes s = elim (Bool-cases s.in_interrupt_thread_handler) [
  | inl handled ↦ rw handled refl
  | inr other ↦ rw other refl
]

-- When there are no processes and no handler threads to run, the interrupt finds the processor in
-- the state `SCHEDULER_STATE_USER`, as it does after the idle state, and every kernel thread of the
-- well-formed list that is ahead of `current_thread` is waiting, then the processor is left idle,
-- with `current_thread` NULL and no other change of its kernel threads, whether or not
-- `current_thread` or a thread before it can run.
pub scheduler_interrupt-passed_over :
    (base time : ℕ) (s : Cpu)
    → IsLinked thread_address s.kernel.list.threads
    → s.processes ≡ []
    → s.interrupt_thread_handlers ≡ []
    → (leave_idle s).scheduler_state ≡ user_state
    → All (λ t. is_waiting time t ≡ true) (remaining s.kernel)
    → (s' : Cpu) × (scheduler_interrupt base time s ≡ decided to_idle s')
      × (s'.kernel ≡ reset s.kernel)
scheduler_interrupt-passed_over base time s v e none_left state h =
    let k = leave_idle-kernel s in
    let late =
      late_passes base time (ready (leave_idle s)) (rw k v) (rw (leave_idle-processes s) e) state
        (rw k h) in
    (late.0, scheduler_interrupt-passes base time s none_left ∙ late.1, late.2 ∙ ap reset k)
