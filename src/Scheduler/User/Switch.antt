-- ===== src/Scheduler/User/Switch.antt =====
-- What a whole pass through the threads of a process does.
use blesk_os.Common.{ℕ, ◌<◌, true, false, Option, some, ◌==◌, ◌≡◌, ◌⊎◌, inl, inr, arith}
use blesk_os.Scheduler.Linked.{find}
use blesk_os.Scheduler.Processes.{UserThread, user_address}
use blesk_os.Scheduler.User.{UserSide, local_list}
use blesk_os.Scheduler.User.Frame.{Same}
use blesk_os.Scheduler.User.{user_pass}
use blesk_os.Scheduler.User.Handled.{From}
use blesk_os.Scheduler.User.Passes.{IsLocal, rounds_left}
use blesk_os.Scheduler.User.Reached.{Switched, Ended, user_pass-Reached}

-- The thread at an address was listed before. If it is to be deleted and its handler did not run, it
-- goes on at the handler, which is not NULL; otherwise it goes on where it was.
pub record Handled (a : ℕ) (u w : UserSide) : Type 0 where
  pub old : UserThread
  pub new : UserThread
  pub before : find user_address a (local_list u).threads ≡ some old
  pub after : find user_address a (local_list w).threads ≡ some new
  pub starts :
      new.delete_me ≡ true
      → old.delete_signal_running ≡ false
      → (new.eip ≡ old.delete_signal_handler_address)
        × ((old.delete_signal_handler_address == 0) ≡ false)
  pub goes_on : new.delete_signal_running ≡ old.delete_signal_running → new.eip ≡ old.eip
  pub undisturbed :
      new.delete_me ≡ false
      → (new.delete_signal_running ≡ old.delete_signal_running) × (new.eip ≡ old.eip)

Switched-Handled : (a : ℕ) (u w : UserSide) → From u w → Switched a w → Handled a u w
Switched-Handled a u w from sw =
    let (old, before, course) = from a sw.thread sw.listed in
    record {
      old = old;
      new = sw.thread;
      before = before;
      after = sw.listed;
      starts = λ wanted idle. ground (arith, course.course, sw.answered wanted, sw.live, idle);
      goes_on = λ same. ground (arith, course.course, same);
      undisturbed = λ kept. ground (arith, course.course, kept);
    }

abbrev pub Passed : UserSide → Option (ℕ × UserSide) → Type 0
Passed u result =
    (a : ℕ) × (w : UserSide) × (result ≡ some (a, w))
    × IsLocal w
    × Same u.cpu w.cpu
    × ((Switched a w × Handled a u w) ⊎ Ended a w)

-- From a process with a well-formed list for the processor and with more fuel than rounds left, the
-- pass has a result with a well-formed list: it switches to a thread of that list that is neither
-- killed nor blocked nor asleep, or the next pass starts from the first thread. The thread was listed
-- before the pass; if it is to be deleted and its handler did not run before, it is marked as running
-- it and its instruction pointer is the address of the handler, which is not NULL; if the mark is the
-- same as before, so is the instruction pointer, and if it is not to be deleted, both are. A well-formed list of kernel threads stays well
-- formed, and the processor keeps its state and its place in the list of processes.
pub user_pass-Passed :
    (base fuel time : ℕ) (u : UserSide)
    → IsLocal u
    → rounds_left u < fuel
    → Passed u (user_pass base fuel time u)
user_pass-Passed base fuel time u v h =
    let (a, w, is, local, same, from, out) = user_pass-Reached base fuel time u v h in
    elim out [
      | inl switched ↦ (a, w, is, local, same, inl (switched, Switched-Handled a u w from switched))
      | inr ended ↦ (a, w, is, local, same, inr ended)
    ]
