-- ===== src/Locks/Mutex.antt =====
-- `LOCK_MUTEX`, `LOCK_MUTEX_WAIT_IN_SWITCHES` and `UNLOCK_MUTEX` of
-- kernel/hardware/devices/cpu/mutex.h. What a thread does between two exchanges, to pause or to let
-- another thread run, is left out. The word does not tell who has the lock.
use blesk_os.Common.{
  ℕ, ◌≡◌, ◌≢◌, ◌⊎◌, inl, inr, refl, sym, ◌∙◌, subst, true, false, ◌==◌, ==_refl, if◌then◌else◌,
  arith, Bool-cases,
}
use blesk_os.Locks.{Place, outside, waiting, inside, Holds, System, move}

abbrev pub mutex_unlocked_value : ℕ
mutex_unlocked_value = 0

abbrev pub mutex_locked_value : ℕ
mutex_locked_value = 1

-- The exchange of the locking loop.
unfoldable pub mutex_exchange : ℕ → System → System
mutex_exchange c s =
    if s.word == mutex_unlocked_value
    then record (move s c inside) { word = mutex_locked_value }
    else s

-- The write of `UNLOCK_MUTEX`.
unfoldable pub mutex_write : ℕ → System → System
mutex_write c s = record (move s c outside) { word = mutex_unlocked_value }

-- A step of the thread `c`: it comes to the loop, makes an exchange there, or unlocks what it has.
pub data Step : System → System → Type 0 where
  comes : (c : ℕ) (s : System) → s.place c ≡ outside → Step s (move s c waiting)
  exchanges : (c : ℕ) (s : System) → s.place c ≡ waiting → Step s (mutex_exchange c s)
  unlocks : (c : ℕ) (s : System) → s.place c ≡ inside → Step s (mutex_write c s)

abbrev pub start : System
start = record { word = mutex_unlocked_value; place = λ c. outside }

pub data Reachable : System → Type 0 where
  at_start : Reachable start
  after_step : (s t : System) → Reachable s → Step s t → Reachable t

-- The thread `c` has the lock and no other one has.
pub record Only (c : ℕ) (s : System) : Type 0 where
  pub holds : Holds (s.place c)
  pub others : (i : ℕ) → Holds (s.place i) → i ≡ c

-- The word is 0 and no thread has the lock, or it is 1 and one thread has it.
abbrev pub Consistent : System → Type 0
Consistent s =
    ((s.word ≡ mutex_unlocked_value) × ((i : ℕ) → ¬ Holds (s.place i)))
    ⊎ ((s.word ≡ mutex_locked_value) × (c : ℕ) × Only c s)

-- A thread that has no lock moves to a place without the lock.
moved_idle :
    (s : System) (c : ℕ) (p : Place) (i : ℕ)
    → ¬ Holds p
    → Holds ((move s c p).place i)
    → (i ≢ c) × Holds (s.place i)
moved_idle s c p i n h = elim (Bool-cases (i == c)) [
  | inl here ↦ absurd (n (rw here at h))
  | inr other ↦ (ground arith, rw other at h)
]

idle_moved :
    (s : System) (c : ℕ) (p : Place) (i : ℕ)
    → ¬ Holds (s.place c)
    → Holds (s.place i)
    → Holds ((move s c p).place i)
idle_moved s c p i n h = elim (Bool-cases (i == c)) [
  | inl here ↦
      let same : i ≡ c = ground arith in absurd (n (subst (λ (j : ℕ). Holds (s.place j)) same h))
  | inr other ↦ rw other h
]

Consistent-comes :
    (s : System) (c : ℕ) → s.place c ≡ outside → Consistent s → Consistent (move s c waiting)
Consistent-comes s c p (inl (free, nobody)) =
    inl (free, λ i h. nobody i (moved_idle s c waiting i (λ k. k) h).1)
Consistent-comes s c p (inr (taken, o, only)) = inr (
  taken,
  o,
  record {
    holds = idle_moved s c waiting o (λ k. subst Holds p k) only.holds;
    others = λ i h. only.others i (moved_idle s c waiting i (λ k. k) h).1;
  },
)

Consistent-mutex_exchange : (s : System) (c : ℕ) → Consistent s → Consistent (mutex_exchange c s)
unfolding mutex_exchange
Consistent-mutex_exchange s c (inl (free, nobody)) =
    let open_word : (s.word == mutex_unlocked_value) ≡ true = ground arith in
    rw open_word (
      inr (
        refl,
        c,
        record {
          holds = rw (==_refl c) tt;
          others = λ i h. elim (Bool-cases (i == c)) [
            | inl here ↦ ground arith
            | inr other ↦ absurd (nobody i (rw other at h))
          ];
        },
      ))
Consistent-mutex_exchange s c (inr (taken, o, only)) =
    let closed : (s.word == mutex_unlocked_value) ≡ false = ground arith in
    rw closed (inr (taken, o, only))

Consistent-mutex_write :
    (s : System) (c : ℕ) → s.place c ≡ inside → Consistent s → Consistent (mutex_write c s)
unfolding mutex_write
Consistent-mutex_write s c p (inl (free, nobody)) = absurd (nobody c (subst Holds (sym p) tt))
Consistent-mutex_write s c p (inr (taken, o, only)) = inl (
  refl,
  λ i h.
      let left = moved_idle s c outside i (λ k. k) h in
      left.0 (only.others i left.1 ∙ sym (only.others c (subst Holds (sym p) tt))),
)

Consistent-Step : (s t : System) → Step s t → Consistent s → Consistent t
Consistent-Step s t (comes c _ p) k = Consistent-comes s c p k
Consistent-Step s t (exchanges c _ p) k = Consistent-mutex_exchange s c k
Consistent-Step s t (unlocks c _ p) k = Consistent-mutex_write s c p k

-- In every state that the steps of the threads lead to, in any order, the word is 0 and no thread has
-- the lock, or the word is 1 and exactly one thread has it.
pub Reachable-Consistent : (s : System) → Reachable s → Consistent s
Reachable-Consistent _ at_start = inl (refl, λ i h. h)
Reachable-Consistent _ (after_step s t r q) = Consistent-Step s t q (Reachable-Consistent s r)
