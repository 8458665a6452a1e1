-- ===== src/Locks/CoreMutex.antt =====
-- `core_mutex_lock` and `core_mutex_unlock` of kernel/hardware/devices/cpu/mutex.c. The place names what
-- a core does as seen from its last call, since a second call of the holder is not counted. An interrupt
-- of a core between its own load and store in `core_mutex_unlock`, with calls of the same lock, is not a
-- step here.
use blesk_os.Common.{
  ==_refl, true, false, ◌⊎◌, refl, ℕ, ◌-◌, ◌^◌, ◌<◌, ◌≡◌, inl, inr, sym, ◌∙◌, subst, ◌==◌,
  if◌then◌else◌, arith, Bool-cases,
}
use blesk_os.Locks.{Place, outside, waiting, inside, releasing, Holds, System, move}

-- `CORE_MUTEX_UNLOCKED`, as the 32-bit number of its bits.
abbrev pub core_mutex_unlocked : ℕ
core_mutex_unlocked = 2 ^ 32 - 1

-- The load at the start of `core_mutex_lock`.
unfoldable pub lock_load : ℕ → System → System
lock_load c s = if s.word == c then move s c inside else move s c waiting

-- The compare-and-exchange of its loop.
unfoldable pub lock_exchange : ℕ → System → System
lock_exchange c s =
    if s.word == core_mutex_unlocked then record (move s c inside) { word = c } else s

-- The load of `core_mutex_unlock`.
unfoldable pub unlock_load : ℕ → System → System
unlock_load c s = if s.word == c then move s c releasing else move s c outside

-- Its store.
unfoldable pub unlock_store : ℕ → System → System
unlock_store c s = record (move s c outside) { word = core_mutex_unlocked }

-- A step of the core `c`. A core that has the lock may ask for it again, and one that is outside may
-- unlock it without effect.
pub data Step : System → System → Type 0 where
  locks :
      (c : ℕ) (s : System) → c < core_mutex_unlocked → s.place c ≡ outside → Step s (lock_load c s)
  locks_again :
      (c : ℕ) (s : System) → c < core_mutex_unlocked → s.place c ≡ inside → Step s (lock_load c s)
  exchanges :
      (c : ℕ) (s : System)
      → c < core_mutex_unlocked
      → s.place c ≡ waiting
      → Step s (lock_exchange c s)
  unlocks :
      (c : ℕ) (s : System) → c < core_mutex_unlocked → s.place c ≡ inside → Step s (unlock_load c s)
  unlocks_outside :
      (c : ℕ) (s : System)
      → c < core_mutex_unlocked
      → s.place c ≡ outside
      → Step s (unlock_load c s)
  stores :
      (c : ℕ) (s : System)
      → c < core_mutex_unlocked
      → s.place c ≡ releasing
      → Step s (unlock_store c s)

-- The states that the steps lead to, from the free lock with every core outside.
abbrev pub start : System
start = record { word = core_mutex_unlocked; place = λ c. outside }

pub data Reachable : System → Type 0 where
  at_start : Reachable start
  after_step : (s t : System) → Reachable s → Step s t → Reachable t

-- A core that has the lock is the one the word names, and no core with a number like the free word's
-- has it.
abbrev Owner : System → Type 0
Owner s = (c : ℕ) → Holds (s.place c) → (s.word ≡ c) × (c < core_mutex_unlocked)

-- A move of one core to a place that has the lock only if the word names that core.
Owner-move :
    (s : System) (c : ℕ) (p : Place)
    → (Holds p → (s.word ≡ c) × (c < core_mutex_unlocked))
    → Owner s
    → Owner (move s c p)
Owner-move s c p k o i h = elim (Bool-cases (i == c)) [
  | inl here ↦
      let same : c ≡ i = ground arith in
      subst (λ (j : ℕ). (s.word ≡ j) × (j < core_mutex_unlocked)) same (k (rw here at h))
  | inr other ↦ o i (rw other at h)
]

Owner-lock_load : (c : ℕ) (s : System) → c < core_mutex_unlocked → Owner s → Owner (lock_load c s)
unfolding lock_load
Owner-lock_load c s b o = elim (Bool-cases (s.word == c)) [
  | inl mine ↦ rw mine (Owner-move s c inside (λ h. (ground arith, b)) o)
  | inr other ↦ rw other (Owner-move s c waiting (λ h. absurd h) o)
]

Owner-unlock_load :
    (c : ℕ) (s : System) → c < core_mutex_unlocked → Owner s → Owner (unlock_load c s)
unfolding unlock_load
Owner-unlock_load c s b o = elim (Bool-cases (s.word == c)) [
  | inl mine ↦ rw mine (Owner-move s c releasing (λ h. (ground arith, b)) o)
  | inr other ↦ rw other (Owner-move s c outside (λ h. absurd h) o)
]

Owner-lock_exchange :
    (c : ℕ) (s : System) → c < core_mutex_unlocked → Owner s → Owner (lock_exchange c s)
unfolding lock_exchange
Owner-lock_exchange c s b o = elim (Bool-cases (s.word == core_mutex_unlocked)) [
  | inl free ↦ rw free (λ i h. elim (Bool-cases (i == c)) [
    | inl here ↦ (ground arith, ground arith)
    | inr other ↦ let named = o i (rw other at h) in absurd (ground (arith, named.0, named.1))
  ])
  | inr taken ↦ rw taken o
]

Owner-unlock_store :
    (c : ℕ) (s : System) → s.place c ≡ releasing → Owner s → Owner (unlock_store c s)
unfolding unlock_store
Owner-unlock_store c s p o i h = elim (Bool-cases (i == c)) [
  | inl here ↦ absurd (rw here at h)
  | inr other ↦
      let mine = o c (subst Holds (sym p) tt) in
      let named = o i (rw other at h) in absurd (ground (arith, mine.0, named.0))
]

Owner-Step : (s t : System) → Step s t → Owner s → Owner t
Owner-Step s t (locks c _ b p) o = Owner-lock_load c s b o
Owner-Step s t (locks_again c _ b p) o = Owner-lock_load c s b o
Owner-Step s t (exchanges c _ b p) o = Owner-lock_exchange c s b o
Owner-Step s t (unlocks c _ b p) o = Owner-unlock_load c s b o
Owner-Step s t (unlocks_outside c _ b p) o = Owner-unlock_load c s b o
Owner-Step s t (stores c _ b p) o = Owner-unlock_store c s p o

Reachable-Owner : (s : System) → Reachable s → Owner s
Reachable-Owner _ at_start = λ c h. absurd h
Reachable-Owner _ (after_step s t r q) = Owner-Step s t q (Reachable-Owner s r)

-- In every state that the steps of the cores lead to, in any order, at most one core has the lock.
pub Reachable-exclusive :
    (s : System) (a b : ℕ) → Reachable s → Holds (s.place a) → Holds (s.place b) → a ≡ b
Reachable-exclusive s a b r h k = let o = Reachable-Owner s r in sym (o a h).0 ∙ (o b k).0

-- The word is free, or the core that it names has the lock.
abbrev Named : System → Type 0
Named s = (s.word ≡ core_mutex_unlocked) ⊎ Holds (s.place s.word)

Named-move_other :
    (s : System) (c : ℕ) (p : Place) → (s.word == c) ≡ false → Named s → Named (move s c p)
Named-move_other s c p other (inl free) = inl free
Named-move_other s c p other (inr held) = inr (rw other held)

Named-move_owner :
    (s : System) (c : ℕ) (p : Place) → (s.word == c) ≡ true → Holds p → Named (move s c p)
Named-move_owner s c p mine h = inr (rw mine h)

Named-Step : (s t : System) → Step s t → Named s → Named t
unfolding lock_load unlock_load lock_exchange unlock_store
Named-Step s t (locks c _ b p) n = elim (Bool-cases (s.word == c)) [
  | inl mine ↦ rw mine (Named-move_owner s c inside mine tt)
  | inr other ↦ rw other (Named-move_other s c waiting other n)
]
Named-Step s t (locks_again c _ b p) n = elim (Bool-cases (s.word == c)) [
  | inl mine ↦ rw mine (Named-move_owner s c inside mine tt)
  | inr other ↦ rw other (Named-move_other s c waiting other n)
]
Named-Step s t (exchanges c _ b p) n = elim (Bool-cases (s.word == core_mutex_unlocked)) [
  | inl free ↦ rw free (inr (rw (==_refl c) tt))
  | inr taken ↦ rw taken n
]
Named-Step s t (unlocks c _ b p) n = elim (Bool-cases (s.word == c)) [
  | inl mine ↦ rw mine (Named-move_owner s c releasing mine tt)
  | inr other ↦ rw other (Named-move_other s c outside other n)
]
Named-Step s t (unlocks_outside c _ b p) n = elim (Bool-cases (s.word == c)) [
  | inl mine ↦ rw mine (Named-move_owner s c releasing mine tt)
  | inr other ↦ rw other (Named-move_other s c outside other n)
]
Named-Step s t (stores c _ b p) n = inl refl

Reachable-Named : (s : System) → Reachable s → Named s
Reachable-Named _ at_start = inl refl
Reachable-Named _ (after_step s t r q) = Named-Step s t q (Reachable-Named s r)

-- The lock is never lost: in a state that the steps lead to in which no core has the lock, the next
-- exchange of any core gives the lock to that core.
pub Reachable-lock_exchange :
    (s : System) (c : ℕ)
    → Reachable s
    → ((i : ℕ) → ¬ Holds (s.place i))
    → Holds ((lock_exchange c s).place c)
unfolding lock_exchange
Reachable-lock_exchange s c r nobody = elim (Reachable-Named s r) [
  | inl free ↦
      let open_word : (s.word == core_mutex_unlocked) ≡ true = ground arith in
      rw (open_word, ==_refl c) tt
  | inr held ↦ absurd (nobody s.word held)
]
