-- ===== src/Scheduler/Flags/Kill.antt =====
-- A pass takes the threads of a killed process away.
use blesk_os.Common.{
  ℕ, zero, suc, ◌<◌, true, not, ◌&&◌, some, List, [], ◌∷◌, map, length, get_or, get_or-map, ◌==◌,
  All, ◌≡◌, refl, ◌∙◌, ap, inl, inr, arith, Bool-cases,
}
use blesk_os.Scheduler.Linked.{IsLinked, change}
use blesk_os.Scheduler.Linked.Chain.{All-ahead}
use blesk_os.Scheduler.Linked.Removal.{
  All-without, All-map, All-change, IsLinked-map, IsLinked-change, length-map,
}
use blesk_os.Scheduler.Processes.{UserThread, UserThreadList, Process, user_address, no_list, Cpu}
use blesk_os.Scheduler.User.{
  UserSide, local_list, put_user_list, visited, start_delete_signal, delete_if_created, drop_thread,
  kill_user_thread, user_pass,
}
use blesk_os.Scheduler.User.Rounds.{
  remaining, moved, at_end, kills, passes, takes, wakes, user_round-Outcome,
}
use blesk_os.Scheduler.User.Passes.{
  IsLocal, rounds_left, local_list-put_user_list, killed_list, moved-IsLocal, killed-IsLocal,
  killed-rounds_left,
}
use blesk_os.Scheduler.Flags.{kill_thread, kill_main_thread, kill_threads, kill_process}

abbrev IsKilled : UserThread → Type 0
IsKilled t = t.kill_me ≡ true

start_delete_signal-IsKilled : (t : UserThread) → IsKilled t → IsKilled (start_delete_signal t)
unfolding start_delete_signal
start_delete_signal-IsKilled t h = elim (Bool-cases (t.delete_me && not t.delete_signal_running)) [
  | inl asked ↦ elim (Bool-cases (t.delete_signal_handler_address == 0)) [
    | inl none_set ↦ rw (asked, none_set) refl
    | inr set_up ↦ rw (asked, set_up) h
  ]
  | inr not_asked ↦ rw not_asked h
]

delete_if_created-IsKilled :
    (id : ℕ) (t : UserThread) → IsKilled t → IsKilled (delete_if_created id t)
delete_if_created-IsKilled id t h = elim (Bool-cases (t.creation_thread_id == id)) [
  | inl created ↦ rw created h
  | inr other ↦ rw other h
]

-- From the start of a list of killed threads the pass leaves no thread.
user_pass-IsKilled :
    (base fuel time : ℕ) (u : UserSide)
    → IsLocal u
    → All IsKilled (local_list u).threads
    → (local_list u).current_thread ≡ 0
    → rounds_left u < fuel
    → (w : UserSide) × (user_pass base fuel time u ≡ some (0, w)) × ((local_list w).threads ≡ [])
unfolding user_pass drop_thread
user_pass-IsKilled base zero time u v h start b = absurd (omega arith)
user_pass-IsKilled base (suc fuel) time u v h start b =
    let l : UserThreadList = local_list u in
    let ahead_all : All IsKilled (remaining u) =
      All-ahead user_address IsKilled l.current_thread l.threads h in
    elim (user_round-Outcome base time u) [
      | at_end e r ↦
          let empty : l.threads ≡ [] = rw start at e in
          (
            put_user_list (record l { current_thread = 0 }) u,
            rw (user_pass, r) refl,
            ap (λ (x : UserThreadList). x.threads)
                  (local_list-put_user_list (record l { current_thread = 0 }) u v.indexed)
                ∙ empty,
          )
      | kills t rest e r ↦
          let s : UserThread = start_delete_signal t in
          let m : UserSide = moved t u in
          let sound = moved-IsLocal t u v in
          let left = killed_list base s m sound in
          let moved_list = local_list-put_user_list (visited t l) u v.indexed in
          let visited_all =
            All-change user_address start_delete_signal IsKilled t.address l.threads
              start_delete_signal-IsKilled h in
          let all_moved : All IsKilled (local_list m).threads = rw moved_list visited_all in
          let marked =
            All-map user_address (delete_if_created s.id) IsKilled (local_list m).threads
              (delete_if_created-IsKilled s.id) all_moved in
          let kept =
            All-without user_address IsKilled s.address
              (map (delete_if_created s.id) (local_list m).threads) marked in
          let fewer = killed-rounds_left base t rest u v e in
          let later =
            user_pass-IsKilled base fuel time (kill_user_thread base s m)
              (killed-IsLocal base s m sound) (rw left kept) (rw left refl)
              (omega (arith, fewer, b)) in
          (later.0, rw (user_pass, r) (later.1), later.2)
      | passes t rest e live r ↦
          let all : All IsKilled (t ∷ rest) = rw e at ahead_all in
          absurd (ground (arith, start_delete_signal-IsKilled t (all.0), live))
      | takes t rest e live free rested r ↦
          let all : All IsKilled (t ∷ rest) = rw e at ahead_all in
          absurd (ground (arith, start_delete_signal-IsKilled t (all.0), live))
      | wakes t rest e live free r ↦
          let all : All IsKilled (t ∷ rest) = rw e at ahead_all in
          absurd (ground (arith, start_delete_signal-IsKilled t (all.0), live))
    ]

kill_thread-IsKilled : (l : List UserThread) → All IsKilled (map kill_thread l)
kill_thread-IsKilled [] = tt
kill_thread-IsKilled (t ∷ l) = (refl, kill_thread-IsKilled l)

-- After `kill_process`, a pass from the start of a well-formed list that the process has for a
-- processor comes to its end and leaves no thread in it.
pub kill_process-user_pass :
    (base time : ℕ) (p : Process) (s : Cpu)
    → s.index < length p.lists
    → IsLinked user_address (get_or p.lists s.index no_list).threads
    → (get_or p.lists s.index no_list).current_thread ≡ 0
    → let u : UserSide = record { process = kill_process p; cpu = s } in
      (w : UserSide) × (user_pass base (suc (rounds_left u)) time u ≡ some (0, w))
      × ((local_list w).threads ≡ [])
unfolding kill_process
kill_process-user_pass base time p s b v start =
    let u : UserSide = record { process = kill_process p; cpu = s } in
    let l : UserThreadList = get_or p.lists s.index no_list in
    let main : List UserThreadList = map (kill_main_thread p.main_thread) p.lists in
    let first : get_or main s.index no_list ≡ kill_main_thread p.main_thread l =
      get_or-map (kill_main_thread p.main_thread) p.lists s.index no_list b in
    let marked : List UserThread = change user_address p.main_thread kill_thread l.threads in
    let here : local_list u ≡ kill_threads (kill_main_thread p.main_thread l) =
      get_or-map kill_threads main s.index no_list (rw length-map b) ∙ ap kill_threads first in
    let linked = IsLinked-change user_address kill_thread (λ t. refl) p.main_thread l.threads v in
    user_pass-IsKilled base (suc (rounds_left u)) time u
      (record {
        indexed = rw (length-map, length-map) b;
        linked = rw here (IsLinked-map user_address kill_thread (λ t. refl) marked linked);
      })
      (rw here (kill_thread-IsKilled marked)) (rw here start) (omega arith)
