-- ===== src/Locks/Tests.antt =====
-- Concrete runs of the locks.
use blesk_os.Common.{Bool-cases, inl, inr, ◌==◌, ℕ, ◌≡◌, refl, arith}
use blesk_os.Locks.{waiting, Holds, System, move}
use blesk_os.Locks.CoreMutex
use blesk_os.Locks.CoreMutex.{
  lock_load, lock_exchange, unlock_load, unlock_store, Reachable-exclusive, Reachable-lock_exchange,
}
use blesk_os.Locks.Mutex
use blesk_os.Locks.Mutex.{mutex_exchange, mutex_write, Consistent, Reachable-Consistent}

-- Core 3 has the lock and core 5 waits for it.
abbrev contended : System
contended = lock_load 5 (lock_exchange 3 (lock_load 3 CoreMutex.start))

contended-Reachable : CoreMutex.Reachable contended
unfolding lock_load lock_exchange
contended-Reachable =
    CoreMutex.after_step _ _
      (CoreMutex.after_step _ _
        (CoreMutex.after_step _ _ CoreMutex.at_start
          (CoreMutex.locks 3 CoreMutex.start (omega arith) refl))
        (CoreMutex.exchanges 3 (lock_load 3 CoreMutex.start) (omega arith) refl))
      (CoreMutex.locks 5 (lock_exchange 3 (lock_load 3 CoreMutex.start)) (omega arith) refl)

contended-Holds : Holds (contended.place 3)
unfolding lock_load lock_exchange
contended-Holds = tt

Reachable-exclusive_example : ◌≡◌ {A = ℕ} 3 3
Reachable-exclusive_example =
    Reachable-exclusive contended 3 3 contended-Reachable contended-Holds contended-Holds

-- Core 3 has unlocked and core 5 still waits.
abbrev handed : System
handed = unlock_store 3 (unlock_load 3 contended)

handed-Reachable : CoreMutex.Reachable handed
unfolding lock_load lock_exchange unlock_load
handed-Reachable =
    CoreMutex.after_step _ _
      (CoreMutex.after_step _ _ contended-Reachable
        (CoreMutex.unlocks 3 contended (omega arith) refl))
      (CoreMutex.stores 3 (unlock_load 3 contended) (omega arith) refl)

handed_free : (i : ℕ) → ¬ Holds (handed.place i)
unfolding lock_load lock_exchange unlock_load unlock_store
handed_free i h = elim (Bool-cases (i == 3)) [
  | inl three ↦ rw three at h
  | inr other ↦ elim (Bool-cases (i == 5)) [
    | inl five ↦ rw (other, five) at h
    | inr idle ↦ rw (other, idle) at h
  ]
]

Reachable-lock_exchange_example : Holds ((lock_exchange 5 handed).place 5)
Reachable-lock_exchange_example = Reachable-lock_exchange handed 5 handed-Reachable handed_free

abbrev two_threads : System
two_threads = mutex_exchange 1 (move (move Mutex.start 1 waiting) 2 waiting)

two_threads-Reachable : Mutex.Reachable two_threads
two_threads-Reachable =
    Mutex.after_step _ _
      (Mutex.after_step _ _ (Mutex.after_step _ _ Mutex.at_start (Mutex.comes 1 Mutex.start refl))
        (Mutex.comes 2 (move Mutex.start 1 waiting) refl))
      (Mutex.exchanges 1 (move (move Mutex.start 1 waiting) 2 waiting) refl)

Reachable-Consistent_example : Consistent two_threads
Reachable-Consistent_example = Reachable-Consistent two_threads two_threads-Reachable
