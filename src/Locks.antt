-- ===== src/Locks.antt =====
-- The locks: kernel/hardware/devices/cpu/mutex.c and mutex.h. A step is one access to the shared word;
-- the steps of all processors come in any order.
pub mod CoreMutex
pub mod Mutex
mod Tests
use blesk_os.Common.{ℕ, ◌==◌, if◌then◌else◌}

-- Where a processor is: outside, before the exchange of the locking loop, with the lock, or before the
-- write that unlocks it.
pub data Place : Type 0 where
  outside : Place
  waiting : Place
  inside : Place
  releasing : Place

-- The place has the lock.
abbrev pub Holds : Place → Type 0
Holds outside = ⊥
Holds waiting = ⊥
Holds inside = Unit
Holds releasing = Unit

-- The word of the lock, and the place of each processor.
pub record System : Type 0 where
  pub word : ℕ
  pub place : ℕ → Place

abbrev pub move : System → ℕ → Place → System
move s c p = record s { place = λ i. if i == c then p else s.place i }
