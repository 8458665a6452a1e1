-- ===== src/Scheduler/Interrupt/Processes.antt =====
-- What a pass of `scheduler_interrupt` through processes comes to.
use blesk_os.Common.{
  ℕ, suc, true, Option, some, ◌==◌, ◌≡◌, refl, ◌∙◌, ap, inl, inr, arith, Bool-cases,
}
use blesk_os.Scheduler.Linked.{find}
use blesk_os.Scheduler.Linked.Removal.{find-change}
use blesk_os.Scheduler.Threads.{kernel_state, user_state}
use blesk_os.Scheduler.Kernel.{KernelSide}
use blesk_os.Scheduler.Processes.{Process, process_address, Cpu, current_process}
use blesk_os.Scheduler.User.{UserSide}
use blesk_os.Scheduler.User.Passes.{rounds_left as user_rounds_left}
use blesk_os.Scheduler.User.Switch.{user_pass-Passed}
use blesk_os.Scheduler.User.Reached as UserReached
use blesk_os.Scheduler.Interrupt.{
  Turn, next_pass, switch_user, switch_kernel, check_kernel, put_process, directory_of,
  process_step,
}
use blesk_os.Scheduler.Interrupt.Lists.{ListedOn, IsCpu, put_process-IsCpu}

-- A thread of the process that the processor is at was chosen.
pub record UserChosen (a : ℕ) (s : Cpu) : Type 0 where
  pub process : Process
  pub found : find process_address (current_process s) s.processes ≡ some process
  pub switched : UserReached.Switched a (record { process = process; cpu = s })
  pub running : s.running_thread_state ≡ user_state
  pub kernel_next : s.scheduler_state ≡ kernel_state
  pub current : s.current_user_thread ≡ a

-- The next pass finds the lists well formed, and the kernel threads at the same place.
pub record Onward (s s' : Cpu) : Type 0 where
  pub sound : IsCpu s'
  pub same_index : s'.index ≡ s.index
  pub same_current : s'.kernel.list.current_thread ≡ s.kernel.list.current_thread

abbrev pub UserTurn : Cpu → Turn → Type 0
UserTurn s (next_pass s') =
    Onward s s' × ((s.index == 0) ≡ true → s'.scheduler_state ≡ kernel_state)
UserTurn s (switch_user a s') = UserChosen a s'
UserTurn s (switch_kernel a s') = ⊥

abbrev pub UserStepped : Cpu → Option Turn → Type 0
UserStepped s result = (t : Turn) × (result ≡ some t) × UserTurn s t

-- A turn from a processor that only moved in the list of processes.
pub onwards :
    (s s1 : Cpu) (t : Turn)
    → s1.index ≡ s.index
    → s1.kernel ≡ s.kernel
    → UserTurn s1 t
    → UserTurn s t
onwards s s1 (next_pass s') i k (o, h) = (
  record {
    sound = o.sound;
    same_index = o.same_index ∙ i;
    same_current = o.same_current ∙ ap (λ (x : KernelSide). x.list.current_thread) k;
  },
  λ first. h (rw i first),
)
onwards s s1 (switch_user a s') i k h = h
onwards s s1 (switch_kernel a s') i k h = h

-- The state `SCHEDULER_STATE_KERNEL` is next.
pub check_kernel-UserTurn :
    (s s1 : Cpu)
    → IsCpu s1
    → s1.index ≡ s.index
    → s1.kernel.list.current_thread ≡ s.kernel.list.current_thread
    → UserTurn s (next_pass (check_kernel s1))
check_kernel-UserTurn s s1 v i c = (
  record {
    sound = record { kernel = v.kernel; linked = v.linked; local = v.local; placed = v.placed };
    same_index = i;
    same_current = c;
  },
  λ first. refl,
)

module _ (base : ℕ) where
  -- The pass through the threads of the process at hand.
  pub process_step-UserStepped :
      (time : ℕ) (p : Process) (s : Cpu)
      → IsCpu s
      → ListedOn s.index p
      → find process_address p.address s.processes ≡ some p
      → current_process s ≡ p.address
      → UserStepped s (process_step base time p s)
  unfolding process_step
  process_step-UserStepped time p s v l f here =
      let u : UserSide = record { process = p; cpu = s } in
      let done =
        user_pass-Passed base (suc (user_rounds_left u)) time u
          (record { indexed = l.0; linked = l.1 }) (omega arith) in
      let w : UserSide = done.1 in
      let same = done.4 in
      let put : Process → Process = (λ q. record q {
        number_of_threads = w.process.number_of_threads;
        lists = w.process.lists;
      }) in
      let sound = put_process-IsCpu p.address s w v done.3 same in
      let there : find process_address (current_process w.cpu) (put_process p.address w).processes
          ≡ some (put p) =
        rw (same.same_processes, same.same_place, same.same_index, here)
          (find-change process_address put (λ q. refl) p.address p s.processes f) in
      elim (Bool-cases (done.0 == 0)) [
        | inl over ↦ (
          next_pass (check_kernel (put_process p.address w)),
          rw (process_step, done.2, over) refl,
          check_kernel-UserTurn s (put_process p.address w) sound same.same_index same.same_current,
        )
        | inr chosen ↦ elim (done.5) [
          | inl (switched, handled) ↦ (
            switch_user (done.0) (record (check_kernel (put_process p.address w)) {
              running_thread_state = user_state;
              current_user_thread = done.0;
              cr3 = directory_of (done.0) w;
            }),
            rw (process_step, done.2, chosen) refl,
            record {
              process = put p;
              found = there;
              switched = record {
                thread = switched.thread;
                listed = switched.listed;
                live = switched.live;
                free = switched.free;
                rested = switched.rested;
                answered = switched.answered;
                at_thread = switched.at_thread;
                last = switched.last;
              };
              running = refl;
              kernel_next = refl;
              current = refl;
            },
          )
          | inr ended ↦ absurd (ground (arith, ended.no_thread, chosen))
        ]
      ]
