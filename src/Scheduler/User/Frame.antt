-- ===== src/Scheduler/User/Frame.antt =====
-- What a round through user threads leaves alone of the processor.
use blesk_os.Common.{
  ℕ, false, ◌==◌, if◌then◌else◌, sub32, ◌≡◌, refl, sym, ◌∙◌, inl, inr, Bool-cases,
}
use blesk_os.Scheduler.Threads.{KernelThread, thread_address}
use blesk_os.Scheduler.Linked.{change, IsLinked}
use blesk_os.Scheduler.Linked.Removal.{length-change, IsLinked-change}
use blesk_os.Scheduler.Kernel.{KernelSide, add_pointer_to_clean}
use blesk_os.Scheduler.Kernel.Passes.{IsCounted}
use blesk_os.Scheduler.Processes.{UserThread, Cpu}
use blesk_os.Scheduler.User.{UserSide, leave_page_directory, kill_user_thread}

-- What the passes through user threads leave alone of a processor; of its kernel threads at most the
-- cleaning one is unblocked.
pub record Same (s s' : Cpu) : Type 0 where
  pub same_index : s'.index ≡ s.index
  pub same_state : s'.scheduler_state ≡ s.scheduler_state
  pub same_processes : s'.processes ≡ s.processes
  pub same_place : s'.current_processes ≡ s.current_processes
  pub same_current : s'.kernel.list.current_thread ≡ s.kernel.list.current_thread
  pub same_sound : IsCounted s.kernel → IsCounted s'.kernel

pub Same-refl : (s : Cpu) → Same s s
Same-refl s = record {
  same_index = refl;
  same_state = refl;
  same_processes = refl;
  same_place = refl;
  same_current = refl;
  same_sound = λ v. v;
}

pub Same-trans : (s t u : Cpu) → Same s t → Same t u → Same s u
Same-trans s t u f g = record {
  same_index = g.same_index ∙ f.same_index;
  same_state = g.same_state ∙ f.same_state;
  same_processes = g.same_processes ∙ f.same_processes;
  same_place = g.same_place ∙ f.same_place;
  same_current = g.same_current ∙ f.same_current;
  same_sound = λ v. g.same_sound (f.same_sound v);
}

pub add_pointer_to_clean-IsCounted :
    (ptr : ℕ) (k : KernelSide) → IsCounted k → IsCounted (add_pointer_to_clean ptr k)
add_pointer_to_clean-IsCounted ptr k v =
    let unblock : KernelThread → KernelThread = (λ t. record t { is_blocked = false }) in
    let unblocked : IsLinked thread_address
        (change thread_address k.cleaning_thread unblock k.list.threads) =
      IsLinked-change thread_address unblock (λ t. refl) k.cleaning_thread k.list.threads
        v.linked in
    elim (Bool-cases (ptr == 0)) [
      | inl null ↦ rw null v
      | inr given ↦ rw given (record {
        linked = unblocked;
        counted =
            v.counted ∙ sym (length-change thread_address unblock k.cleaning_thread k.list.threads);
        few = rw length-change v.few;
      })
    ]

pub add_pointer_to_clean-current :
    (ptr : ℕ) (k : KernelSide)
    → (add_pointer_to_clean ptr k).list.current_thread ≡ k.list.current_thread
add_pointer_to_clean-current ptr k = elim (Bool-cases (ptr == 0)) [
  | inl null ↦ rw null refl
  | inr given ↦ rw given refl
]

module _ (base : ℕ) where
  leave_page_directory-Same :
      (executable : ℕ) (t : UserThread) (s : Cpu)
      → Same s (leave_page_directory base executable t s)
  unfolding leave_page_directory
  leave_page_directory-Same executable t s =
      elim (Bool-cases (sub32 (s.counters t.counter) 1 == 0)) [
        | inl last ↦ rw last (record {
          same_index = refl;
          same_state = refl;
          same_processes = refl;
          same_place = refl;
          same_current = refl;
          same_sound = λ v. record { linked = v.linked; counted = v.counted; few = v.few };
        })
        | inr more ↦ rw more (record {
          same_index = refl;
          same_state = refl;
          same_processes = refl;
          same_place = refl;
          same_current = refl;
          same_sound = λ v. record { linked = v.linked; counted = v.counted; few = v.few };
        })
      ]

  pub kill_user_thread-Same :
      (t : UserThread) (u : UserSide) → Same u.cpu (kill_user_thread base t u).cpu
  unfolding kill_user_thread
  kill_user_thread-Same t u =
      let s1 : Cpu = record u.cpu {
        current_user_thread =
            if u.cpu.current_user_thread == t.address then 0 else u.cpu.current_user_thread;
      } in
      let left = leave_page_directory-Same u.process.running_executable t s1 in
      let s2 : Cpu = leave_page_directory base u.process.running_executable t s1 in
      record {
        same_index = left.same_index;
        same_state = left.same_state;
        same_processes = left.same_processes;
        same_place = left.same_place;
        same_current = add_pointer_to_clean-current t.kernel_stack s2.kernel ∙ left.same_current;
        same_sound = λ v.
            (let w = add_pointer_to_clean-IsCounted t.kernel_stack s2.kernel (left.same_sound v) in
              record { linked = w.linked; counted = w.counted; few = w.few });
      }
