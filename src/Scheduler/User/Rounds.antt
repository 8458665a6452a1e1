-- ===== src/Scheduler/User/Rounds.antt =====
-- The outcomes of a round of the loop over the threads of a process.
use blesk_os.Common.{ℕ, false, List, [], ◌∷◌, List-cases, ◌≡◌, refl, inl, inr, Bool-cases}
use blesk_os.Scheduler.Threads.{is_over}
use blesk_os.Scheduler.Linked.{ahead}
use blesk_os.Scheduler.Processes.{UserThread, user_address}
use blesk_os.Scheduler.User.{
  UserSide, local_list, put_user_list, visited, woken, UserRound, ended, again, chosen,
  start_delete_signal, kill_user_thread, user_visit, user_round,
}

abbrev pub remaining : UserSide → List UserThread
remaining u = ahead user_address (local_list u).current_thread (local_list u).threads

abbrev pub moved : UserThread → UserSide → UserSide
moved t u = put_user_list (visited t (local_list u)) u

abbrev pub awake : UserThread → UserSide → UserSide
awake t u = put_user_list (woken t (visited t (local_list u))) u

module _ (base : ℕ) where
  -- The outcomes of a round, for a side and the round.
  pub data Outcome (time : ℕ) (u : UserSide) (r : UserRound) : Type 0 where
    at_end :
        remaining u ≡ []
        → r ≡ ended (put_user_list (record (local_list u) { current_thread = 0 }) u)
        → Outcome time u r
    kills :
        (t : UserThread) (rest : List UserThread)
        → remaining u ≡ t ∷ rest
        → r ≡ again (kill_user_thread base (start_delete_signal t) (moved t u))
        → Outcome time u r
    passes :
        (t : UserThread) (rest : List UserThread)
        → remaining u ≡ t ∷ rest
        → (start_delete_signal t).kill_me ≡ false
        → r ≡ again (moved t u)
        → Outcome time u r
    takes :
        (t : UserThread) (rest : List UserThread)
        → remaining u ≡ t ∷ rest
        → (start_delete_signal t).kill_me ≡ false
        → (start_delete_signal t).is_blocked ≡ false
        → (start_delete_signal t).sleeping ≡ false
        → r ≡ chosen t.address (moved t u)
        → Outcome time u r
    wakes :
        (t : UserThread) (rest : List UserThread)
        → remaining u ≡ t ∷ rest
        → (start_delete_signal t).kill_me ≡ false
        → (start_delete_signal t).is_blocked ≡ false
        → r ≡ chosen t.address (awake t u)
        → Outcome time u r

  user_visit-Outcome :
      (time : ℕ) (t : UserThread) (rest : List UserThread) (u : UserSide)
      → remaining u ≡ t ∷ rest
      → Outcome time u (user_visit base time t u)
  unfolding user_visit
  user_visit-Outcome time t rest u e =
      let s : UserThread = start_delete_signal t in
      elim (Bool-cases s.kill_me) [
        | inl kill ↦ kills t rest e (rw kill refl)
        | inr live ↦ elim (Bool-cases s.is_blocked) [
          | inl blocked ↦ passes t rest e live (rw (live, blocked) refl)
          | inr free ↦ elim (Bool-cases s.sleeping) [
            | inr rested ↦ takes t rest e live free rested (rw (live, free, rested) refl)
            | inl asleep ↦ elim (Bool-cases (is_over time s.time_end_of_sleep)) [
              | inl over ↦ wakes t rest e live free (rw (live, free, asleep, over) refl)
              | inr early ↦ passes t rest e live (rw (live, free, asleep, early) refl)
            ]
          ]
        ]
      ]

  pub user_round-Outcome : (time : ℕ) (u : UserSide) → Outcome time u (user_round base time u)
  unfolding user_round
  user_round-Outcome time u = elim (List-cases (remaining u)) [
    | inl e ↦ at_end e (rw (user_round, e) refl)
    | inr found ↦ rw (user_round, found.2) (user_visit-Outcome time (found.0) (found.1) u (found.2))
  ]
