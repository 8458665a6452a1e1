-- ===== src/Scheduler/Kernel/Rounds.antt =====
-- The outcomes of a round of the loop over the kernel threads.
use blesk_os.Common.{
  ℕ, Bool, true, false, not, ◌&&◌, ◌||◌, List, [], ◌∷◌, ◌==◌, List-cases, ◌≡◌, refl, inl, inr,
  Bool-cases,
}
use blesk_os.Scheduler.Threads.{KernelThread, thread_address, is_over}
use blesk_os.Scheduler.Linked.{ahead, without, unlink_first}
use blesk_os.Scheduler.Kernel.{
  KernelSide, change_thread, kill_kernel_thread, Round, ended, again, chosen, kernel_visit,
  kernel_round,
}

-- A thread that the pass switches to.
abbrev pub is_ready : ℕ → KernelThread → Bool
is_ready time t =
    not t.kill_me && (not t.is_blocked && (not t.sleeping || is_over time t.time_end_of_sleep))

-- A thread that the pass leaves where it is.
abbrev pub is_waiting : ℕ → KernelThread → Bool
is_waiting time t =
    not t.kill_me && (t.is_blocked || (t.sleeping && not (is_over time t.time_end_of_sleep)))

abbrev pub remaining : KernelSide → List KernelThread
remaining k = ahead thread_address k.list.current_thread k.list.threads

-- The side after the pass moved to a thread, and after it killed it.
abbrev pub moved : KernelThread → KernelSide → KernelSide
moved t k = record k { list = record k.list { current_thread = t.address } }

abbrev pub killed : KernelThread → KernelSide → KernelSide
killed t k = kill_kernel_thread t (without thread_address t.address k.list.threads) (moved t k)

abbrev pub woken : KernelThread → KernelSide → KernelSide
woken t k = change_thread t.address (λ s. record s { sleeping = false }) (moved t k)

-- The four outcomes of a round, for a side and the round.
pub data Outcome (time : ℕ) (k : KernelSide) (r : Round) : Type 0 where
  at_end :
      remaining k ≡ []
      → r ≡ ended (record k { list = record k.list { current_thread = 0 } })
      → Outcome time k r
  kills :
      (t : KernelThread) (rest : List KernelThread)
      → remaining k ≡ t ∷ rest
      → t.kill_me ≡ true
      → r ≡ again (killed t k)
      → Outcome time k r
  passes :
      (t : KernelThread) (rest : List KernelThread)
      → remaining k ≡ t ∷ rest
      → is_waiting time t ≡ true
      → r ≡ again (moved t k)
      → Outcome time k r
  takes :
      (t : KernelThread) (rest : List KernelThread)
      → remaining k ≡ t ∷ rest
      → t.kill_me ≡ false
      → t.is_blocked ≡ false
      → t.sleeping ≡ false
      → r ≡ chosen t.address (moved t k)
      → Outcome time k r
  wakes :
      (t : KernelThread) (rest : List KernelThread)
      → remaining k ≡ t ∷ rest
      → t.kill_me ≡ false
      → t.is_blocked ≡ false
      → is_over time t.time_end_of_sleep ≡ true
      → r ≡ chosen t.address (woken t k)
      → Outcome time k r

kernel_visit-Outcome :
    (time : ℕ) (t : KernelThread) (rest : List KernelThread) (k : KernelSide)
    → remaining k ≡ t ∷ rest
    → Outcome time k (kernel_visit [] time t k)
unfolding kernel_visit unlink_first
kernel_visit-Outcome time t rest k e = elim (Bool-cases t.kill_me) [
  | inl kill ↦ kills t rest e kill (elim (Bool-cases (k.list.current_thread == 0)) [
    | inl first ↦ rw (kill, first) refl
    | inr later ↦ rw (kill, later) refl
  ])
  | inr live ↦ elim (Bool-cases t.is_blocked) [
    | inl blocked ↦ passes t rest e (rw (live, blocked) refl) (rw (live, blocked) refl)
    | inr free ↦ elim (Bool-cases t.sleeping) [
      | inr awake ↦ takes t rest e live free awake (rw (live, free, awake) refl)
      | inl asleep ↦ elim (Bool-cases (is_over time t.time_end_of_sleep)) [
        | inl over ↦ wakes t rest e live free over (rw (live, free, asleep, over) refl)
        | inr early ↦
            passes t rest e (rw (live, free, asleep, early) refl)
              (rw (live, free, asleep, early) refl)
      ]
    ]
  ]
]

pub kernel_round-Outcome : (time : ℕ) (k : KernelSide) → Outcome time k (kernel_round [] time k)
unfolding kernel_round
kernel_round-Outcome time k = elim (List-cases (remaining k)) [
  | inl e ↦ at_end e (rw (kernel_round, e) refl)
  | inr found ↦
      rw (kernel_round, found.2) (kernel_visit-Outcome time (found.0) (found.1) k (found.2))
]
