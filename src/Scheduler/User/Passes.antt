-- ===== src/Scheduler/User/Passes.antt =====
-- What a round keeps of the threads of a process, and that the rounds come to an end.
use blesk_os.Common.{
  ℕ, suc, ◌+◌, ◌*◌, ◌≤◌, ◌<◌, not, ◌&&◌, some, List, ◌∷◌, map, ◌==◌, get_or, get_or-set_self,
  get_or-map, length-set, length, ◌≡◌, refl, sym, ◌∙◌, ap, inl, inr, arith, Bool-cases,
}
use blesk_os.Scheduler.Linked.{find, IsLinked}
use blesk_os.Scheduler.Linked.Chain.{ahead-ahead, ahead-nonzero, ahead-find, ahead-shorter}
use blesk_os.Scheduler.Linked.Removal.{
  IsLinked-without, find-length, length-change, IsLinked-change, find-change, length-map,
  IsLinked-map, find-map, length-behind_change,
}
use blesk_os.Scheduler.Processes.{UserThread, UserThreadList, user_address, no_list}
use blesk_os.Scheduler.User.{
  UserSide, local_list, put_user_list, visited, start_delete_signal, delete_if_created,
  delete_created, drop_thread, kill_user_thread,
}
use blesk_os.Scheduler.User.Rounds.{remaining, moved}
use blesk_os.Scheduler.User.Frame.{kill_user_thread-Same}

-- The process has a well-formed list for the processor.
pub record IsLocal (u : UserSide) : Type 0 where
  pub indexed : u.cpu.index < length u.process.lists
  pub linked : IsLinked user_address (local_list u).threads

-- A request to delete keeps the place of the thread.
pub start_delete_signal-address : (t : UserThread) → (start_delete_signal t).address ≡ t.address
unfolding start_delete_signal
start_delete_signal-address t = elim (Bool-cases (t.delete_me && not t.delete_signal_running)) [
  | inl asked ↦ elim (Bool-cases (t.delete_signal_handler_address == 0)) [
    | inl none_set ↦ rw (asked, none_set) refl
    | inr set_up ↦ rw (asked, set_up) refl
  ]
  | inr not_asked ↦ rw not_asked refl
]

pub delete_if_created-address :
    (id : ℕ) (t : UserThread) → (delete_if_created id t).address ≡ t.address
delete_if_created-address id t = elim (Bool-cases (t.creation_thread_id == id)) [
  | inl created ↦ rw created refl
  | inr other ↦ rw other refl
]

pub local_list-put_user_list :
    (l : UserThreadList) (u : UserSide)
    → u.cpu.index < length u.process.lists
    → local_list (put_user_list l u) ≡ l
local_list-put_user_list l u b = get_or-set_self u.process.lists u.cpu.index l no_list b

pub moved-IsLocal : (t : UserThread) (u : UserSide) → IsLocal u → IsLocal (moved t u)
moved-IsLocal t u v = record {
  indexed = rw length-set v.indexed;
  linked = rw (local_list-put_user_list (visited t (local_list u)) u v.indexed) (
      IsLinked-change user_address start_delete_signal start_delete_signal-address t.address
        (local_list u).threads v.linked);
}

-- The rounds that a pass can still take.
abbrev pub rounds_left : UserSide → ℕ
rounds_left u = length (local_list u).threads * length (local_list u).threads + length (remaining u)

pub moved-rounds_left :
    (t : UserThread) (rest : List UserThread) (u : UserSide)
    → IsLocal u
    → remaining u ≡ t ∷ rest
    → suc (rounds_left (moved t u)) ≤ rounds_left u
moved-rounds_left t rest u v e =
    let l : UserThreadList = local_list u in
    let behind_it = ahead-ahead user_address l.current_thread t l.threads rest v.linked e in
    let nonzero = ahead-nonzero user_address l.current_thread t l.threads rest v.linked e in
    let as_far =
      length-behind_change user_address start_delete_signal start_delete_signal-address t.address
        t.address l.threads in
    let as_many = length-change user_address start_delete_signal t.address l.threads in
    rw (e, local_list-put_user_list (visited t l) u v.indexed, nonzero, as_far, as_many, behind_it)
      (omega arith)

module _ (base : ℕ) where
  -- The local list after a thread was killed.
  pub killed_list :
      (t : UserThread) (u : UserSide)
      → IsLocal u
      → local_list (kill_user_thread base t u) ≡ drop_thread t (delete_created t.id (local_list u))
  unfolding kill_user_thread
  killed_list t u v =
      let same = kill_user_thread-Same base t u in
      let b : u.cpu.index < length (map (delete_created t.id) u.process.lists) =
        rw length-map v.indexed in
      rw
        (
          same.same_index,
          get_or-set_self (map (delete_created t.id) u.process.lists) u.cpu.index
              (drop_thread t
                (get_or (map (delete_created t.id) u.process.lists) u.cpu.index no_list))
              no_list b,
        )
        (ap (drop_thread t)
          (get_or-map (delete_created t.id) u.process.lists u.cpu.index no_list v.indexed))

  killed_lists :
      (t : UserThread) (u : UserSide)
      → length (kill_user_thread base t u).process.lists ≡ length u.process.lists
  unfolding kill_user_thread
  killed_lists t u = rw (length-set, length-map) refl

  pub killed-IsLocal :
      (t : UserThread) (u : UserSide) → IsLocal u → IsLocal (kill_user_thread base t u)
  unfolding drop_thread
  killed-IsLocal t u v =
      let same = kill_user_thread-Same base t u in
      let marked =
        IsLinked-map user_address (delete_if_created t.id) (delete_if_created-address t.id)
          (local_list u).threads v.linked in
      record {
        indexed = rw (same.same_index, killed_lists t u) v.indexed;
        linked = rw (killed_list t u v) (
            IsLinked-without user_address t.address
              (map (delete_if_created t.id) (local_list u).threads) marked);
      }

  killed-length :
      (t s : UserThread) (u : UserSide)
      → IsLocal u
      → find user_address t.address (local_list u).threads ≡ some s
      → length (local_list u).threads
        ≡ suc (length (local_list (kill_user_thread base t u)).threads)
  unfolding drop_thread
  killed-length t s u v e =
      let l : List UserThread = (local_list u).threads in
      let found =
        find-map user_address (delete_if_created t.id) (delete_if_created-address t.id) t.address s
          l e in
      let less =
        find-length user_address t.address (delete_if_created t.id s)
          (map (delete_if_created t.id) l) found in
      rw (killed_list t u v) (sym (length-map user_address (delete_if_created t.id) l) ∙ less)

  pub killed-rounds_left :
      (t : UserThread) (rest : List UserThread) (u : UserSide)
      → IsLocal u
      → remaining u ≡ t ∷ rest
      → suc (rounds_left (kill_user_thread base (start_delete_signal t) (moved t u)))
        ≤ rounds_left u
  killed-rounds_left t rest u v e =
      let l : UserThreadList = local_list u in
      let s : UserThread = start_delete_signal t in
      let m : UserSide = moved t u in
      let found =
        find-change user_address start_delete_signal start_delete_signal-address t.address t
          l.threads (ahead-find user_address l.current_thread t l.threads rest v.linked e) in
      let here : find user_address s.address (local_list m).threads ≡ some s =
        ap (λ a. find user_address a (local_list m).threads) (start_delete_signal-address t)
        ∙ rw (local_list-put_user_list (visited t l) u v.indexed) found in
      let less = killed-length s s m (moved-IsLocal t u v) here in
      let as_many : length (local_list m).threads ≡ length l.threads =
        rw (local_list-put_user_list (visited t l) u v.indexed)
          (length-change user_address start_delete_signal t.address l.threads) in
      let k : UserThreadList = local_list (kill_user_thread base s m) in
      let n : ℕ = length k.threads in
      let fits = ahead-shorter user_address k.current_thread k.threads in
      let square : (suc n) * (suc n) ≡ n * n + n + n + 1 = grind arith in
      let whole : length l.threads ≡ suc n = sym as_many ∙ less in
      rw whole (omega (arith, fits, square))
