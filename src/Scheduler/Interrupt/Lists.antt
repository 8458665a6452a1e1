-- ===== src/Scheduler/Interrupt/Lists.antt =====
-- The lists that `scheduler_interrupt` works on stay well formed.
use blesk_os.Common.{
  ℕ, suc, ◌<◌, List, [], ◌∷◌, ◌==◌, if◌then◌else◌, get_or, get_or-set_self, length-set, length, All,
  ◌≡◌, refl, ap,
}
use blesk_os.Scheduler.Linked.{IsLinked}
use blesk_os.Scheduler.Linked.Removal.{IsLinked-change, All-change, length-map}
use blesk_os.Scheduler.Kernel.Passes.{IsCounted}
use blesk_os.Scheduler.Processes.{
  Process, user_address, process_address, no_list, Cpu, current_process,
}
use blesk_os.Scheduler.User.{UserSide}
use blesk_os.Scheduler.User.Frame.{Same, add_pointer_to_clean-IsCounted}
use blesk_os.Scheduler.User.Passes.{IsLocal}
use blesk_os.Scheduler.Interrupt.{set_place, leave_process, remove_process, put_process}

-- The threads of a process are well formed on a processor.
abbrev pub ListedOn : ℕ → Process → Type 0
ListedOn i p = (i < length p.lists) × IsLinked user_address (get_or p.lists i no_list).threads

-- The lists of a processor are well formed.
pub record IsCpu (s : Cpu) : Type 0 where
  pub kernel : IsCounted s.kernel
  pub linked : IsLinked process_address s.processes
  pub local : All (ListedOn s.index) s.processes
  pub placed : s.index < length s.current_processes

pub current_process-set_place :
    (a : ℕ) (s : Cpu) → s.index < length s.current_processes → current_process (set_place a s) ≡ a
current_process-set_place a s b = get_or-set_self s.current_processes s.index a 0 b

pub set_place-IsCpu : (a : ℕ) (s : Cpu) → IsCpu s → IsCpu (set_place a s)
set_place-IsCpu a s v = record {
  kernel = v.kernel;
  linked = v.linked;
  local = v.local;
  placed = rw length-set v.placed;
}

pub put_process-IsCpu :
    (a : ℕ) (s : Cpu) (w : UserSide) → IsCpu s → IsLocal w → Same s w.cpu → IsCpu (put_process a w)
put_process-IsCpu a s w v l same =
    let put : Process → Process = (λ q. record q {
      number_of_threads = w.process.number_of_threads;
      lists = w.process.lists;
    }) in
    record {
      kernel = same.same_sound v.kernel;
      linked =
          rw (same.same_processes)
            (IsLinked-change process_address put (λ q. refl) a s.processes v.linked);
      local = rw (same.same_processes) (
          All-change process_address put (ListedOn w.cpu.index) a s.processes
            (λ q h. (l.indexed, l.linked)) (rw (same.same_index) v.local));
      placed = rw (same.same_place, same.same_index) v.placed;
    }

length-leave_process : (a next : ℕ) (l : List ℕ) → length (leave_process a next l) ≡ length l
length-leave_process a next [] = refl
length-leave_process a next (own ∷ others) =
    ap suc (length-map (λ (b : ℕ). b) (λ b. if b == a then next else b) others)

pub remove_process-IsCpu :
    (p : Process) (rest : List Process) (s : Cpu)
    → IsCpu s
    → IsLinked process_address rest
    → All (ListedOn s.index) rest
    → IsCpu (remove_process p rest s)
unfolding remove_process
remove_process-IsCpu p rest s v linked local =
    let k = add_pointer_to_clean-IsCounted p.address s.kernel v.kernel in
    record {
      kernel = k;
      linked = linked;
      local = local;
      placed = rw (length-set, length-leave_process) v.placed;
    }
