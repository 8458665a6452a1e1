-- ===== src/Scheduler/Interrupt/UserPasses.antt =====
-- What a pass of `scheduler_interrupt` through processes comes to.
use blesk_os.Common.{
  ℕ, ◌&&◌, [], ◌∷◌, ◌==◌, false, List-cases, List, ◌∷◌, All, ◌≡◌, refl, ◌∙◌, inl, inr, arith,
  Bool-cases,
}
use blesk_os.Scheduler.Linked.{ahead, without, unlink_first}
use blesk_os.Scheduler.Linked.Chain.{ahead-find, All-ahead}
use blesk_os.Scheduler.Linked.Removal.{All-without, IsLinked-without}
use blesk_os.Scheduler.Processes.{Process, process_address, Cpu, current_process}
use blesk_os.Scheduler.User.Frame.{add_pointer_to_clean-current}
use blesk_os.Scheduler.Interrupt.{
  next_pass, set_place, check_kernel, remove_process, process_step, user_step,
}
use blesk_os.Scheduler.Interrupt.Lists.{
  ListedOn, IsCpu, current_process-set_place, set_place-IsCpu, remove_process-IsCpu,
}
use blesk_os.Scheduler.Interrupt.Processes.{
  UserTurn, UserStepped, check_kernel-UserTurn, onwards, process_step-UserStepped,
}

removed-UserTurn :
    (p : Process) (a : ℕ) (s : Cpu)
    → IsCpu s
    → UserTurn s (
        next_pass
          (remove_process p (without process_address p.address s.processes) (set_place a s)))
unfolding remove_process
removed-UserTurn p a s v = (
  record {
    sound =
        remove_process-IsCpu p (without process_address p.address s.processes) (set_place a s)
          (set_place-IsCpu a s v) (IsLinked-without process_address p.address s.processes v.linked)
          (All-without process_address (ListedOn s.index) p.address s.processes v.local);
    same_index = refl;
    same_current = add_pointer_to_clean-current p.address s.kernel;
  },
  λ i. refl,
)

module _ (base : ℕ) where
  -- The pass with a process to look at.
  one_process :
      (time : ℕ) (p : Process) (rest : List Process) (s : Cpu)
      → IsCpu s
      → ahead process_address (current_process s) s.processes ≡ p ∷ rest
      → (p.is_blocked ≡ false)
      → (s.index == 0 && p.number_of_threads == 0) ≡ false
      → UserStepped s (user_step base [] time s)
  unfolding user_step
  one_process time p rest s v e free kept =
      let sound = set_place-IsCpu p.address s v in
      let s1 : Cpu = set_place p.address s in
      elim (Bool-cases (p.number_of_threads == 0)) [
        | inl over ↦ (
          next_pass s1,
          rw (user_step, e, free, kept, over) refl,
          (
            record { sound = sound; same_index = refl; same_current = refl },
            λ i. absurd (ground (arith, kept, over, i)),
          ),
        )
        | inr some_threads ↦
            let ahead_all : All (ListedOn s.index)
                (ahead process_address (current_process s) s.processes) =
              All-ahead process_address (ListedOn s.index) (current_process s) s.processes
                v.local in
            let all : All (ListedOn s.index) (p ∷ rest) = rw e at ahead_all in
            let turn : user_step base [] time s ≡ process_step base time p s1 =
              rw (user_step, e, free, kept, some_threads) refl in
            let done =
              process_step-UserStepped base time p s1 sound (all.0)
                (ahead-find process_address (current_process s) p s.processes rest v.linked e)
                (current_process-set_place p.address s v.placed) in
            (done.0, turn ∙ done.1, onwards s s1 (done.0) refl refl (done.2))
      ]

  -- In the state `SCHEDULER_STATE_USER` the pass has a result; processor 0 looks at its kernel threads
  -- next if it does not switch.
  pub user_step-UserStepped :
      (time : ℕ) (s : Cpu) → IsCpu s → UserStepped s (user_step base [] time s)
  unfolding user_step unlink_first
  user_step-UserStepped time s v =
      elim (List-cases (ahead process_address (current_process s) s.processes)) [
        | inl e ↦ (
          next_pass (check_kernel (set_place 0 s)),
          rw (user_step, e) refl,
          check_kernel-UserTurn s (set_place 0 s) (set_place-IsCpu 0 s v) refl refl,
        )
        | inr found ↦
            let p : Process = found.0 in
            let e = found.2 in
            let s1 : Cpu = set_place (p.address) s in
            let left : Cpu = remove_process p (without process_address p.address s.processes) s1 in
            elim (Bool-cases p.is_blocked) [
              | inl blocked ↦ (
                next_pass (check_kernel s1),
                rw (user_step, e, blocked) refl,
                check_kernel-UserTurn s s1 (set_place-IsCpu (p.address) s v) refl refl,
              )
              | inr free ↦ elim (Bool-cases (s.index == 0 && p.number_of_threads == 0)) [
                | inl empty ↦ elim (Bool-cases (current_process s == 0)) [
                  | inl first ↦ (
                    next_pass left,
                    rw (user_step, e, free, empty, first) refl,
                    removed-UserTurn p (p.address) s v,
                  )
                  | inr later ↦ (
                    next_pass left,
                    rw (user_step, e, free, empty, later) refl,
                    removed-UserTurn p (p.address) s v,
                  )
                ]
                | inr kept ↦ one_process time p (found.1) s v e free kept
              ]
            ]
      ]
