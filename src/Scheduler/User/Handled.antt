-- ===== src/Scheduler/User/Handled.antt =====
-- How the handler of a thread that is to be deleted is started, over the rounds of a pass.
use blesk_os.Common.{
  ℕ, true, false, not, ◌&&◌, ◌==◌, ◌≡◌, refl, ◌∙◌, ◌⊎◌, inl, inr, arith, Bool-cases, List, map,
}
use blesk_os.Scheduler.Linked.{without}
use blesk_os.Scheduler.Linked.Removal.{IsLinked-map}
use blesk_os.Scheduler.Linked.Traced.{
  Traced, Traced-trans, Traced-without, Traced-change, Traced-map,
}
use blesk_os.Scheduler.Processes.{UserThread, UserThreadList, user_address}
use blesk_os.Scheduler.User.{
  UserSide, local_list, visited, woken, start_delete_signal, delete_if_created, drop_thread,
  kill_user_thread,
}
use blesk_os.Scheduler.User.Rounds.{moved, awake}
use blesk_os.Scheduler.User.Passes.{
  IsLocal, start_delete_signal-address, delete_if_created-address, local_list-put_user_list,
  killed_list,
}

-- What a thread was and what it is: it is to be deleted and its handler was started, unless it is
-- killed, or it goes on where it was.
pub record Course (old new : UserThread) : Type 0 where
  pub same_handler : new.delete_signal_handler_address ≡ old.delete_signal_handler_address
  pub stays_killed : old.kill_me ≡ true → new.kill_me ≡ true
  pub stays_deleted : old.delete_me ≡ true → new.delete_me ≡ true
  pub course :
      ((new.delete_signal_running ≡ old.delete_signal_running) × (new.eip ≡ old.eip))
      ⊎ ((old.delete_signal_running ≡ false)
          × (new.delete_signal_running ≡ true)
          × (new.delete_me ≡ true)
          × ((new.kill_me ≡ true)
              ⊎ ((new.eip ≡ old.delete_signal_handler_address)
                  × ((old.delete_signal_handler_address == 0) ≡ false))))

pub Course-refl : (t : UserThread) → Course t t
Course-refl t = record {
  same_handler = refl;
  stays_killed = λ h. h;
  stays_deleted = λ h. h;
  course = inl (refl, refl);
}

Course-trans : (t s r : UserThread) → Course t s → Course s r → Course t r
Course-trans t s r first second = record {
  same_handler = second.same_handler ∙ first.same_handler;
  stays_killed = λ h. second.stays_killed (first.stays_killed h);
  stays_deleted = λ h. second.stays_deleted (first.stays_deleted h);
  course = ground (
    arith, first.course, second.course, second.stays_killed, second.stays_deleted,
    first.same_handler,
  );
}

start_delete_signal-Course : (t : UserThread) → Course t (start_delete_signal t)
unfolding start_delete_signal
start_delete_signal-Course t = elim (Bool-cases (t.delete_me && not t.delete_signal_running)) [
  | inl asked ↦
      let before : t.delete_signal_running ≡ false = ground arith in
      let wanted : t.delete_me ≡ true = ground arith in
      elim (Bool-cases (t.delete_signal_handler_address == 0)) [
        | inl none_set ↦
            rw (asked, none_set)
              (record {
                same_handler = refl;
                stays_killed = λ h. refl;
                stays_deleted = λ h. h;
                course = inr (before, refl, wanted, inl refl);
              })
        | inr set_up ↦
            rw (asked, set_up)
              (record {
                same_handler = refl;
                stays_killed = λ h. h;
                stays_deleted = λ h. h;
                course = inr (before, refl, wanted, inr (refl, set_up));
              })
      ]
  | inr not_asked ↦ rw not_asked (Course-refl t)
]

delete_if_created-Course : (id : ℕ) (t : UserThread) → Course t (delete_if_created id t)
delete_if_created-Course id t = elim (Bool-cases (t.creation_thread_id == id)) [
  | inl created ↦ rw created (record {
    same_handler = refl;
    stays_killed = λ h. h;
    stays_deleted = λ h. refl;
    course = inl (refl, refl);
  })
  | inr other ↦ rw other (Course-refl t)
]

-- The threads of the second side were threads of the first one.
abbrev pub From : UserSide → UserSide → Type 0
From u w = Traced user_address Course (local_list u).threads (local_list w).threads

pub From-refl : (u : UserSide) → From u u
From-refl u a s e = (s, e, Course-refl s)

pub From-trans : (u m w : UserSide) → From u m → From m w → From u w
From-trans u m w =
    Traced-trans user_address Course (local_list u).threads (local_list m).threads
      (local_list w).threads Course-trans

pub moved-From : (t : UserThread) (u : UserSide) → IsLocal u → From u (moved t u)
moved-From t u v =
    let l : UserThreadList = local_list u in
    rw (local_list-put_user_list (visited t l) u v.indexed) (
      Traced-change user_address start_delete_signal start_delete_signal-address Course t.address
        l.threads Course-refl start_delete_signal-Course)

pub awake-From : (t : UserThread) (u : UserSide) → IsLocal u → From u (awake t u)
awake-From t u v =
    let l : UserThreadList = local_list u in
    let wake : UserThread → UserThread = (λ s. record s { sleeping = false }) in
    let visit =
      Traced-change user_address start_delete_signal start_delete_signal-address Course t.address
        l.threads Course-refl start_delete_signal-Course in
    let wakes =
      Traced-change user_address wake (λ s. refl) Course t.address (visited t l).threads Course-refl
        (λ s. record {
          same_handler = refl;
          stays_killed = λ h. h;
          stays_deleted = λ h. h;
          course = inl (refl, refl);
        }) in
    rw (local_list-put_user_list (woken t (visited t l)) u v.indexed) (
      Traced-trans user_address Course l.threads (visited t l).threads
        (woken t (visited t l)).threads Course-trans visit wakes)

module _ (base : ℕ) where
  pub killed-From : (t : UserThread) (u : UserSide) → IsLocal u → From u (kill_user_thread base t u)
  unfolding drop_thread
  killed-From t u v =
      let l : List UserThread = (local_list u).threads in
      let mark = delete_if_created t.id in
      let marks =
        Traced-map user_address mark (delete_if_created-address t.id) Course l
          (delete_if_created-Course t.id) in
      let linked = IsLinked-map user_address mark (delete_if_created-address t.id) l v.linked in
      let drops = Traced-without user_address Course t.address (map mark l) Course-refl linked in
      rw (killed_list base t u v) (
        Traced-trans user_address Course l (map mark l)
          (without user_address t.address (map mark l)) Course-trans marks drops)
