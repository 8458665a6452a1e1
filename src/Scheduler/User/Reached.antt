-- ===== src/Scheduler/User/Reached.antt =====
-- What the rounds of a pass through the threads of a process come to.
use blesk_os.Common.{
  ℕ, zero, suc, ◌<◌, true, false, not, ◌&&◌, Option, some, List, ◌∷◌, ◌==◌, length-set, ◌≡◌, refl,
  ◌⊎◌, inl, inr, arith, Bool-cases,
}
use blesk_os.Scheduler.Linked.{find}
use blesk_os.Scheduler.Linked.Chain.{ahead-nonzero, ahead-find}
use blesk_os.Scheduler.Linked.Removal.{IsLinked-change, find-change}
use blesk_os.Scheduler.Processes.{UserThread, UserThreadList, user_address}
use blesk_os.Scheduler.User.{
  UserSide, local_list, put_user_list, visited, woken, start_delete_signal, kill_user_thread,
}
use blesk_os.Scheduler.User.Rounds.{remaining, moved, awake}
use blesk_os.Scheduler.User.Frame.{Same, Same-refl, Same-trans, kill_user_thread-Same}
use blesk_os.Scheduler.User.{user_pass}
use blesk_os.Scheduler.User.Rounds.{at_end, kills, passes, takes, wakes, user_round-Outcome}
use blesk_os.Scheduler.User.Handled.{
  From, From-refl, From-trans, moved-From, awake-From, killed-From,
}
use blesk_os.Scheduler.User.Passes.{
  IsLocal, rounds_left, start_delete_signal-address, local_list-put_user_list, moved-IsLocal,
  killed-IsLocal, moved-rounds_left, killed-rounds_left,
}

-- The thread at an address is listed for the processor, is neither killed nor blocked nor asleep, and
-- is marked as running its handler if it is to be deleted.
pub record Switched (a : ℕ) (u : UserSide) : Type 0 where
  pub thread : UserThread
  pub listed : find user_address a (local_list u).threads ≡ some thread
  pub live : thread.kill_me ≡ false
  pub free : thread.is_blocked ≡ false
  pub rested : thread.sleeping ≡ false
  pub answered : thread.delete_me ≡ true → thread.delete_signal_running ≡ true
  pub at_thread : (a == 0) ≡ false
  pub last : (local_list u).current_thread ≡ a

-- The list was gone through; the next pass starts from its first thread.
pub record Ended (a : ℕ) (u : UserSide) : Type 0 where
  pub no_thread : a ≡ 0
  pub from_start : (local_list u).current_thread ≡ 0

-- The result of the rounds, with where all threads come from.
abbrev pub Reached : UserSide → Option (ℕ × UserSide) → Type 0
Reached u result =
    (a : ℕ) × (w : UserSide) × (result ≡ some (a, w))
    × IsLocal w
    × Same u.cpu w.cpu
    × From u w
    × (Switched a w ⊎ Ended a w)

start_delete_signal-answered :
    (t : UserThread)
    → (start_delete_signal t).delete_me ≡ true
    → (start_delete_signal t).delete_signal_running ≡ true
unfolding start_delete_signal
start_delete_signal-answered t h = elim (Bool-cases (t.delete_me && not t.delete_signal_running)) [
  | inl asked ↦ rw asked refl
  | inr not_asked ↦
      let wanted : t.delete_me ≡ true = rw not_asked at h in
      let runs : t.delete_signal_running ≡ true = ground arith in rw not_asked runs
]

put_current-IsLocal :
    (u : UserSide)
    → IsLocal u
    → IsLocal (put_user_list (record (local_list u) { current_thread = 0 }) u)
put_current-IsLocal u v = record {
  indexed = rw length-set v.indexed;
  linked =
      rw (local_list-put_user_list (record (local_list u) { current_thread = 0 }) u v.indexed)
        v.linked;
}

put_current-From :
    (u : UserSide)
    → IsLocal u
    → From u (put_user_list (record (local_list u) { current_thread = 0 }) u)
put_current-From u v =
    rw (local_list-put_user_list (record (local_list u) { current_thread = 0 }) u v.indexed)
      (From-refl u)

taken-Switched :
    (t : UserThread) (rest : List UserThread) (u : UserSide)
    → IsLocal u
    → remaining u ≡ t ∷ rest
    → (start_delete_signal t).kill_me ≡ false
    → (start_delete_signal t).is_blocked ≡ false
    → (start_delete_signal t).sleeping ≡ false
    → Switched t.address (moved t u)
taken-Switched t rest u v e live free rested =
    let l : UserThreadList = local_list u in
    let found =
      find-change user_address start_delete_signal start_delete_signal-address t.address t l.threads
        (ahead-find user_address l.current_thread t l.threads rest v.linked e) in
    record {
      thread = start_delete_signal t;
      listed = rw (local_list-put_user_list (visited t l) u v.indexed) found;
      live = live;
      free = free;
      rested = rested;
      answered = start_delete_signal-answered t;
      at_thread = ahead-nonzero user_address l.current_thread t l.threads rest v.linked e;
      last = rw (local_list-put_user_list (visited t l) u v.indexed) refl;
    }

woken-Switched :
    (t : UserThread) (rest : List UserThread) (u : UserSide)
    → IsLocal u
    → remaining u ≡ t ∷ rest
    → (start_delete_signal t).kill_me ≡ false
    → (start_delete_signal t).is_blocked ≡ false
    → Switched t.address (awake t u)
woken-Switched t rest u v e live free =
    let l : UserThreadList = local_list u in
    let wake : UserThread → UserThread = (λ s. record s { sleeping = false }) in
    let found =
      find-change user_address start_delete_signal start_delete_signal-address t.address t l.threads
        (ahead-find user_address l.current_thread t l.threads rest v.linked e) in
    let there =
      find-change user_address wake (λ s. refl) t.address (start_delete_signal t)
        (visited t l).threads found in
    record {
      thread = wake (start_delete_signal t);
      listed = rw (local_list-put_user_list (woken t (visited t l)) u v.indexed) there;
      live = live;
      free = free;
      rested = refl;
      answered = start_delete_signal-answered t;
      at_thread = ahead-nonzero user_address l.current_thread t l.threads rest v.linked e;
      last = rw (local_list-put_user_list (woken t (visited t l)) u v.indexed) refl;
    }

awake-IsLocal : (t : UserThread) (u : UserSide) → IsLocal u → IsLocal (awake t u)
awake-IsLocal t u v =
    let l : UserThreadList = local_list u in
    let once =
      IsLinked-change user_address start_delete_signal start_delete_signal-address t.address
        l.threads v.linked in
    record {
      indexed = rw length-set v.indexed;
      linked = rw (local_list-put_user_list (woken t (visited t l)) u v.indexed) (
          IsLinked-change user_address (λ s. record s { sleeping = false }) (λ s. refl) t.address
            (visited t l).threads once);
    }

-- The rounds, by induction on the fuel.
pub user_pass-Reached :
    (base fuel time : ℕ) (u : UserSide)
    → IsLocal u
    → rounds_left u < fuel
    → Reached u (user_pass base fuel time u)
unfolding user_pass
user_pass-Reached base zero time u v h = absurd (omega arith)
user_pass-Reached base (suc fuel) time u v h = elim (user_round-Outcome base time u) [
  | at_end e r ↦
      rw (user_pass, r)
        (
          0,
          put_user_list (record (local_list u) { current_thread = 0 }) u,
          refl,
          put_current-IsLocal u v,
          Same-refl u.cpu,
          put_current-From u v,
          inr (record {
            no_thread = refl;
            from_start =
                rw
                  (local_list-put_user_list (record (local_list u) { current_thread = 0 }) u
                    v.indexed)
                  refl;
          }),
        )
  | kills t rest e r ↦
      let s : UserThread = start_delete_signal t in
      let fewer = killed-rounds_left base t rest u v e in
      let later =
        user_pass-Reached base fuel time (kill_user_thread base s (moved t u))
          (killed-IsLocal base s (moved t u) (moved-IsLocal t u v)) (omega (arith, fewer, h)) in
      let same =
        Same-trans u.cpu (kill_user_thread base s (moved t u)).cpu later.1.cpu
          (kill_user_thread-Same base s (moved t u)) later.4 in
      let k : UserSide = kill_user_thread base s (moved t u) in
      let from = From-trans u (moved t u) later.1 (moved-From t u v) (
        From-trans (moved t u) k later.1 (killed-From base s (moved t u) (moved-IsLocal t u v))
          later.5) in
      rw (user_pass, r) (later.0, later.1, later.2, later.3, same, from, later.6)
  | passes t rest e live r ↦
      let fewer = moved-rounds_left t rest u v e in
      let later =
        user_pass-Reached base fuel time (moved t u) (moved-IsLocal t u v)
          (omega (arith, fewer, h)) in
      let from = From-trans u (moved t u) later.1 (moved-From t u v) later.5 in
      rw (user_pass, r) (later.0, later.1, later.2, later.3, later.4, from, later.6)
  | takes t rest e live free rested r ↦
      rw (user_pass, r)
        (
          t.address,
          moved t u,
          refl,
          moved-IsLocal t u v,
          Same-refl u.cpu,
          moved-From t u v,
          inl (taken-Switched t rest u v e live free rested),
        )
  | wakes t rest e live free r ↦
      rw (user_pass, r)
        (
          t.address,
          awake t u,
          refl,
          awake-IsLocal t u v,
          Same-refl u.cpu,
          awake-From t u v,
          inl (woken-Switched t rest u v e live free),
        )
]
