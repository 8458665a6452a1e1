-- ===== src/Scheduler/Interrupt.antt =====
-- `scheduler_interrupt` on a processor that nothing interferes with. The values of the registers, the
-- stack pointers and the measured times of running are left out.
pub mod Lists
pub mod Processes
pub mod UserPasses
pub mod Threads
pub mod Decisions
pub mod Idle
pub mod NewThread
pub mod Tests
use blesk_os.Common.{
  ℕ, zero, suc, ◌+◌, ◌*◌, Bool, true, false, not, ◌&&◌, Option, none, some, List, [], ◌∷◌, map,
  ◌==◌, if◌then◌else◌, set, get_or, length,
}
use blesk_os.Scheduler.Linked.{ahead, behind, without, change, unlink_first, find}
use blesk_os.Scheduler.Threads.{
  SchedulerState, kernel_state, user_state, idle_state, thread_address,
}
use blesk_os.Scheduler.Processes.{
  UserThread, Process, user_address, process_address, Cpu, current_process,
}
use blesk_os.Scheduler.Kernel.{KernelSide, add_pointer_to_clean, kernel_pass}
use blesk_os.Scheduler.User.{UserSide, local_list, user_pass}
use blesk_os.Scheduler.Kernel.Passes.{rounds_left}
use blesk_os.Scheduler.User.Passes.{rounds_left as user_rounds_left}

-- What a pass comes to: the next pass, or a thread of a program or of the kernel to switch to.
pub data Turn : Type 0 where
  next_pass : Cpu → Turn
  switch_user : ℕ → Cpu → Turn
  switch_kernel : ℕ → Cpu → Turn

-- The processor moves to a process.
abbrev pub set_place : ℕ → Cpu → Cpu
set_place a s = record s { current_processes = set s.current_processes s.index a }

abbrev pub check_kernel : Cpu → Cpu
check_kernel s = record s { scheduler_state = kernel_state }

-- `next` of a process.
abbrev pub next_process : ℕ → List Process → ℕ
next_process a l = elim (behind process_address a l) [ [] ↦ 0 | p ∷ rest ↦ p.address ]

-- The other processors leave a process; the first place is the one of the processor 0.
abbrev pub leave_process : ℕ → ℕ → List ℕ → List ℕ
leave_process a next [] = []
leave_process a next (own ∷ others) = own ∷ map (λ b. if b == a then next else b) others

-- A process with no threads is removed, given the list of processes without it.
unfoldable pub remove_process : Process → List Process → Cpu → Cpu
remove_process p rest s =
    let next = next_process p.address s.processes in
    let s1 = record s {
      processes = rest;
      current_processes = leave_process p.address next s.current_processes;
      removed_executables = p.running_executable ∷ s.removed_executables;
    } in
    let s2 = set_place 0 s1 in
    check_kernel (record s2 { kernel = add_pointer_to_clean p.address s2.kernel })

-- The process with what the pass through its threads changed.
abbrev pub put_process : ℕ → UserSide → Cpu
put_process a u = record u.cpu {
  processes =
      change process_address a
        (λ q. record q { number_of_threads = u.process.number_of_threads; lists = u.process.lists })
        u.cpu.processes;
}

-- The page directory of a thread.
abbrev pub directory_of : ℕ → UserSide → ℕ
directory_of a u = elim (find user_address a (local_list u).threads) [
  | none ↦ u.cpu.cr3
  | some t ↦ t.page_directory
]

-- A pass in the state `SCHEDULER_STATE_KERNEL`.
unfoldable pub kernel_step : ℕ → Cpu → Option Turn
kernel_step time s = elim (kernel_pass (suc (rounds_left s.kernel)) time s.kernel) [
  | none ↦ none
  | some result ↦
      if result.0 == 0
      then some (next_pass (record s { kernel = result.1; scheduler_state = user_state }))
      else some (
          switch_kernel (result.0)
            (record s { kernel = result.1; running_thread_state = kernel_state }))
]

-- What the processor goes on with.
pub data Decision : Type 0 where
  to_handler : ℕ → Decision
  to_user : ℕ → Decision
  to_kernel : ℕ → Decision
  to_idle : Decision

-- A processor that was idle looks at the programs first.
abbrev pub leave_idle : Cpu → Cpu
leave_idle s = if s.in_interrupt_thread_handler then s else record s {
  scheduler_state = elim s.running_thread_state [
    | kernel_state ↦ s.scheduler_state
    | user_state ↦ s.scheduler_state
    | idle_state ↦ user_state
  ];
}

module _ (kernel_page_directory : ℕ) where
  -- The pass through the threads of a process.
  unfoldable pub process_step : ℕ → Process → Cpu → Option Turn
  process_step time p s =
      let u : UserSide = record { process = p; cpu = s } in
      elim (user_pass kernel_page_directory (suc (user_rounds_left u)) time u) [
        | none ↦ none
        | some result ↦
            if result.0 == 0
            then some (next_pass (check_kernel (put_process p.address result.1)))
            else some (
                switch_user (result.0) (record (check_kernel (put_process p.address result.1)) {
                  running_thread_state = user_state;
                  current_user_thread = result.0;
                  cr3 = directory_of (result.0) (result.1);
                }))
      ]

  -- A pass in the state `SCHEDULER_STATE_USER`. While the first process is taken out, other processors
  -- may put the processes `added` into the list; `none` is then a fault.
  unfoldable pub user_step : List Process → ℕ → Cpu → Option Turn
  user_step added time s =
      let previous = current_process s in
      elim (ahead process_address previous s.processes) [
        | [] ↦ some (next_pass (check_kernel (set_place 0 s)))
        | p ∷ rest ↦
            let s1 = set_place p.address s in
            if p.is_blocked
            then some (next_pass (check_kernel s1))
            else if s.index == 0 && p.number_of_threads == 0
            then if previous == 0
              then elim (unlink_first process_address added p.address s.processes) [
                | none ↦ none
                | some left ↦ some (next_pass (remove_process p left s1))
              ]
              else some
                  (next_pass (remove_process p (without process_address p.address s.processes) s1))
            else if p.number_of_threads == 0
            then some (next_pass s1)
            else process_step time p s1
      ]

  -- A pass in the state of the scheduler.
  abbrev pub state_step : ℕ → Cpu → SchedulerState → Option Turn
  state_step time s kernel_state = kernel_step time s
  state_step time s user_state = user_step [] time s
  state_step time s idle_state = some (next_pass s)

  -- The passes of the loop that are left, and the idle state behind them.
  unfoldable pub scheduler_passes : ℕ → ℕ → Cpu → Option (Decision × Cpu)
  scheduler_passes zero time s = some (
    to_idle,
    record s {
      running_thread_state = idle_state;
      scheduler_state = idle_state;
      cr3 = kernel_page_directory;
    },
  )
  scheduler_passes (suc passes) time s = elim (state_step time s s.scheduler_state) [
    | none ↦ none
    | some turn ↦ elim turn [
      | next_pass s' ↦ scheduler_passes passes time s'
      | switch_user a s' ↦ some (to_user a, s')
      | switch_kernel a s' ↦ some (to_kernel a, s')
    ]
  ]

  -- `scheduler_interrupt`.
  unfoldable pub scheduler_interrupt : ℕ → Cpu → Option (Decision × Cpu)
  scheduler_interrupt time s =
      let s1 = leave_idle s in
      elim s1.interrupt_thread_handlers [
        | [] ↦ scheduler_passes 3 time (record s1 { in_interrupt_thread_handler = false })
        | h ∷ rest ↦ some (
          to_handler h,
          record s1 { interrupt_thread_handlers = rest; in_interrupt_thread_handler = true },
        )
      ]
