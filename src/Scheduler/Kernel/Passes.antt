-- ===== src/Scheduler/Kernel/Passes.antt =====
-- What a round keeps of the kernel threads of a processor, and that the rounds come to an end.
use blesk_os.Common.{
  ℕ, suc, ◌+◌, ◌*◌, ◌≤◌, ◌<◌, ◌^◌, false, List, ◌∷◌, ◌==◌, sub32, length, All, ◌≡◌, refl, ◌⊎◌, inl,
  inr, arith, Bool-cases,
}
use blesk_os.Scheduler.Threads.{KernelThread, thread_address}
use blesk_os.Scheduler.Linked.{without, change, looked_at, IsLinked}
use blesk_os.Scheduler.Linked.Chain.{
  ahead-ahead, ahead-nonzero, ahead-find, ahead-looked_at, ahead-shorter,
}
use blesk_os.Scheduler.Linked.Removal.{
  IsLinked-without, find-length, length-change, IsLinked-change,
}
use blesk_os.Scheduler.Kernel.{KernelSide, kill_kernel_thread}
use blesk_os.Scheduler.Kernel.Rounds.{remaining, moved, killed}

-- The list of a processor is well formed and counted right.
pub record IsCounted (k : KernelSide) : Type 0 where
  pub linked : IsLinked thread_address k.list.threads
  pub counted : k.list.number_of_running_threads ≡ length k.list.threads
  pub few : length k.list.threads < 2 ^ 32

-- Besides, all that was looked at has a property.
pub record IsSide (P : KernelThread → Type 0) (k : KernelSide) : Type 0 where
  pub sound : IsCounted k
  pub looked : All P (looked_at thread_address k.list.current_thread k.list.threads)

-- The list after a kill.
pub killed_threads :
    (t : KernelThread) (k : KernelSide)
    → let rest = without thread_address t.address k.list.threads in
      let after = (killed t k).list.threads in
      (after ≡ rest)
      ⊎ (after
          ≡ change thread_address k.cleaning_thread (λ s. record s { is_blocked = false }) rest)
unfolding kill_kernel_thread
killed_threads t k = elim (Bool-cases (t.kernel_stack == 0)) [
  | inl null ↦ inl (rw null refl)
  | inr stack ↦ inr (rw stack refl)
]

killed-IsLinked :
    (t : KernelThread) (k : KernelSide)
    → IsLinked thread_address k.list.threads
    → IsLinked thread_address (killed t k).list.threads
killed-IsLinked t k v =
    let less = IsLinked-without thread_address t.address k.list.threads v in
    elim (killed_threads t k) [
      | inl same ↦ rw same less
      | inr changed ↦ rw changed (
          IsLinked-change thread_address (λ s. record s { is_blocked = false }) (λ s. refl)
            k.cleaning_thread (without thread_address t.address k.list.threads) less)
    ]

killed-length :
    (t : KernelThread) (rest : List KernelThread) (k : KernelSide)
    → IsLinked thread_address k.list.threads
    → remaining k ≡ t ∷ rest
    → length k.list.threads ≡ suc (length (killed t k).list.threads)
killed-length t rest k v e =
    let found = ahead-find thread_address k.list.current_thread t k.list.threads rest v e in
    let less = find-length thread_address t.address t k.list.threads found in
    elim (killed_threads t k) [
      | inl same ↦ rw same less
      | inr changed ↦ rw (changed, length-change) less
    ]

killed-number :
    (t : KernelThread) (k : KernelSide)
    → (killed t k).list.number_of_running_threads ≡ sub32 k.list.number_of_running_threads 1
unfolding kill_kernel_thread
killed-number t k = elim (Bool-cases (t.kernel_stack == 0)) [
  | inl null ↦ rw null refl
  | inr stack ↦ rw stack refl
]

killed-current : (t : KernelThread) (k : KernelSide) → (killed t k).list.current_thread ≡ 0
unfolding kill_kernel_thread
killed-current t k = elim (Bool-cases (t.kernel_stack == 0)) [
  | inl null ↦ rw null refl
  | inr stack ↦ rw stack refl
]

-- A round keeps the side well formed.
pub moved-IsSide :
    (P : KernelThread → Type 0) (t : KernelThread) (rest : List KernelThread) (k : KernelSide)
    → IsSide P k
    → remaining k ≡ t ∷ rest
    → P t
    → IsSide P (moved t k)
moved-IsSide P t rest k v e waiting = record {
  sound = record { linked = v.sound.linked; counted = v.sound.counted; few = v.sound.few };
  looked =
      ahead-looked_at thread_address P k.list.current_thread t k.list.threads rest v.sound.linked e
        v.looked waiting;
}

pub killed-IsCounted :
    (t : KernelThread) (rest : List KernelThread) (k : KernelSide)
    → IsCounted k
    → remaining k ≡ t ∷ rest
    → IsCounted (killed t k)
killed-IsCounted t rest k v e =
    let less = killed-length t rest k v.linked e in
    let number = killed-number t k in
    record {
      linked = killed-IsLinked t k v.linked;
      counted = ground (arith, less, number, v.counted, v.few);
      few = omega (arith, less, v.few);
    }

pub killed-IsSide :
    (P : KernelThread → Type 0) (t : KernelThread) (rest : List KernelThread) (k : KernelSide)
    → IsSide P k
    → remaining k ≡ t ∷ rest
    → IsSide P (killed t k)
killed-IsSide P t rest k v e = record {
  sound = killed-IsCounted t rest k v.sound e;
  looked = rw (killed-current t k) tt;
}

-- The rounds that a pass can still take.
abbrev pub rounds_left : KernelSide → ℕ
rounds_left k = length k.list.threads * length k.list.threads + length (remaining k)

pub moved-rounds_left :
    (t : KernelThread) (rest : List KernelThread) (k : KernelSide)
    → IsLinked thread_address k.list.threads
    → remaining k ≡ t ∷ rest
    → suc (rounds_left (moved t k)) ≤ rounds_left k
moved-rounds_left t rest k v e =
    let behind_it = ahead-ahead thread_address k.list.current_thread t k.list.threads rest v e in
    let nonzero = ahead-nonzero thread_address k.list.current_thread t k.list.threads rest v e in
    rw (e, nonzero, behind_it) (omega arith)

pub killed-rounds_left :
    (t : KernelThread) (rest : List KernelThread) (k : KernelSide)
    → IsLinked thread_address k.list.threads
    → remaining k ≡ t ∷ rest
    → suc (rounds_left (killed t k)) ≤ rounds_left k
killed-rounds_left t rest k v e =
    let less = killed-length t rest k v e in
    let n : ℕ = length (killed t k).list.threads in
    let fits =
      ahead-shorter thread_address (killed t k).list.current_thread (killed t k).list.threads in
    let square : (suc n) * (suc n) ≡ n * n + n + n + 1 = grind arith in
    rw (less) (omega (arith, fits, square))
