-- ===== src/Scheduler/User.antt =====
-- The pass of `scheduler_interrupt` through the threads of a process, and its step to the next process.
pub mod Rounds
pub mod Frame
pub mod Passes
pub mod Handled
pub mod Reached
pub mod Switch
use blesk_os.Common.{
  ℕ, zero, suc, ◌-◌, ◌^◌, ◌%◌, bit_and, bit_xor, Bool, true, false, not, ◌&&◌, Option, none, some,
  List, [], ◌∷◌, map, ◌==◌, if◌then◌else◌, sub32, set, get_or,
}
use blesk_os.Scheduler.Linked.{ahead, without, change}
use blesk_os.Scheduler.Threads.{SchedulerState, kernel_state, user_state, is_over}
use blesk_os.Scheduler.Processes.{
  UserThread, UserThreadList, Process, user_address, process_address, no_list, Cpu, current_process,
}
use blesk_os.Scheduler.Kernel.{KernelSide, add_pointer_to_clean}

-- The request to delete a thread: its handler is started, or it is to be killed when it has none.
unfoldable pub start_delete_signal : UserThread → UserThread
start_delete_signal t =
    if t.delete_me && not t.delete_signal_running
    then (let signalled =
          if t.delete_signal_handler_address == 0
          then record t { kill_me = true }
          else record t { eip = t.delete_signal_handler_address } in
        record signalled { delete_signal_running = true; sleeping = false; is_blocked = false })
    else t

-- All threads that a thread created are to be deleted.
abbrev pub delete_if_created : ℕ → UserThread → UserThread
delete_if_created id t = if t.creation_thread_id == id then record t { delete_me = true } else t

abbrev pub delete_created : ℕ → UserThreadList → UserThreadList
delete_created id l = record l { threads = map (delete_if_created id) l.threads }

-- `tid_bitmap &= ~(1 << ((tid - 1) & 0x1F))`.
abbrev pub free_tid : ℕ → ℕ → ℕ
free_tid tid bitmap = bit_and bitmap (bit_xor (2 ^ 32 - 1) (2 ^ (bit_and (sub32 tid 1) 0x1F)))

-- The list without a killed thread.
unfoldable pub drop_thread : UserThread → UserThreadList → UserThreadList
drop_thread t l = record {
  number_of_running_threads = sub32 l.number_of_running_threads 1;
  tid_bitmap = free_tid t.id l.tid_bitmap;
  current_thread = 0;
  threads = without user_address t.address l.threads;
}

-- What the pass works on: the process, whose lists are indexed by the processors, and the processor.
pub record UserSide : Type 0 where
  pub process : Process
  pub cpu : Cpu

abbrev pub local_list : UserSide → UserThreadList
local_list u = get_or u.process.lists u.cpu.index no_list

abbrev pub put_user_list : UserThreadList → UserSide → UserSide
put_user_list l u = record u {
  process = record u.process { lists = set u.process.lists u.cpu.index l };
}

-- The pass moves to a thread and looks at its request to be deleted; the thread's sleep is over.
abbrev pub visited : UserThread → UserThreadList → UserThreadList
visited t l = record l {
  current_thread = t.address;
  threads = change user_address t.address start_delete_signal l.threads;
}

abbrev pub woken : UserThread → UserThreadList → UserThreadList
woken t l = record l {
  threads = change user_address t.address (λ s. record s { sleeping = false }) l.threads;
}

-- What a round of the loop comes to: the end of the list, another round or a thread to switch to.
pub data UserRound : Type 0 where
  ended : UserSide → UserRound
  again : UserSide → UserRound
  chosen : ℕ → UserSide → UserRound

-- `PM_KERNEL_BASE_PAGE_DIRECTORY` is an argument, since the address is a place of the linked kernel.
module _ (kernel_page_directory : ℕ) where
  -- One thread less in a page directory of a program; with its last thread what else runs on it is
  -- stopped, and it is given back.
  unfoldable pub leave_page_directory : ℕ → UserThread → Cpu → Cpu
  leave_page_directory executable t s =
      let left = sub32 (s.counters t.counter) 1 in
      let s1 = record s { counters = λ c. if c == t.counter then left else s.counters c } in
      if left == 0
      then record s1 {
        cr3 = if t.page_directory == s.cr3 then kernel_page_directory else s.cr3;
        stopped_directories = (executable, t.page_directory) ∷ s.stopped_directories;
        freed_directories = t.page_directory ∷ s.freed_directories;
        kernel = record s1.kernel { freed = t.counter ∷ s.kernel.freed };
      }
      else s1

  -- A killed thread.
  unfoldable pub kill_user_thread : UserThread → UserSide → UserSide
  kill_user_thread t u =
      let marked = map (delete_created t.id) u.process.lists in
      let s1 = record u.cpu {
        current_user_thread =
            if u.cpu.current_user_thread == t.address then 0 else u.cpu.current_user_thread;
      } in
      let s2 = leave_page_directory u.process.running_executable t s1 in
      let cleaned = add_pointer_to_clean t.kernel_stack s2.kernel in
      record {
        process = record u.process {
          number_of_threads = sub32 u.process.number_of_threads 1;
          lists = set marked u.cpu.index (drop_thread t (get_or marked u.cpu.index no_list));
        };
        cpu = record s2 { kernel = record cleaned { freed = t.address ∷ cleaned.freed } };
      }

  -- A thread that is next in the list.
  unfoldable pub user_visit : ℕ → UserThread → UserSide → UserRound
  user_visit time t u =
      let t' = start_delete_signal t in
      let u1 = put_user_list (visited t (local_list u)) u in
      if t'.kill_me
      then again (kill_user_thread t' u1)
      else if t'.is_blocked
      then again u1
      else if t'.sleeping
      then if is_over time t'.time_end_of_sleep
        then chosen t.address (put_user_list (woken t (visited t (local_list u))) u)
        else again u1
      else chosen t.address u1

  -- A round of the loop.
  unfoldable pub user_round : ℕ → UserSide → UserRound
  user_round time u =
      let l = local_list u in
      elim (ahead user_address l.current_thread l.threads) [
        | [] ↦ ended (put_user_list (record l { current_thread = 0 }) u)
        | t ∷ rest ↦ user_visit time t u
      ]

  -- The loop: the thread to switch to, or 0 at the end of the list; `none` is the end of the fuel.
  unfoldable pub user_pass : ℕ → ℕ → UserSide → Option (ℕ × UserSide)
  user_pass zero time u = none
  user_pass (suc fuel) time u = elim (user_round time u) [
    | ended u' ↦ some (0, u')
    | again u' ↦ user_pass fuel time u'
    | chosen a u' ↦ some (a, u')
  ]
