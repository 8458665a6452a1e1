-- ===== src/Scheduler/Kernel/Switch.antt =====
-- What a whole pass through the kernel threads does.
use blesk_os.Common.{
  ℕ, zero, suc, ◌<◌, true, false, Option, some, List, [], ◌∷◌, ◌==◌, All, ◌≡◌, refl, sym, ◌∙◌, ◌⊎◌,
  inl, inr, arith,
}
use blesk_os.Scheduler.Threads.{KernelThread, thread_address}
use blesk_os.Scheduler.Linked.{find}
use blesk_os.Scheduler.Linked.Chain.{ahead-nonzero, ahead-find, ahead-All}
use blesk_os.Scheduler.Linked.Removal.{length-change, IsLinked-change, find-change}
use blesk_os.Scheduler.Kernel.{KernelSide, kernel_pass}
use blesk_os.Scheduler.Kernel.Rounds.{
  is_waiting, remaining, moved, killed, woken, at_end, kills, passes, takes, wakes,
  kernel_round-Outcome,
}
use blesk_os.Scheduler.Kernel.Passes.{
  IsCounted, IsSide, rounds_left, moved-IsSide, killed-IsSide, moved-rounds_left,
  killed-rounds_left,
}

-- The processor switches to a thread of its list that is neither killed nor blocked nor asleep.
pub record Switched (a : ℕ) (k : KernelSide) : Type 0 where
  pub thread : KernelThread
  pub listed : find thread_address a k.list.threads ≡ some thread
  pub live : thread.kill_me ≡ false
  pub free : thread.is_blocked ≡ false
  pub awake : thread.sleeping ≡ false
  pub at_thread : (a == 0) ≡ false
  pub last : k.list.current_thread ≡ a
  pub running : k.current_kernel_thread ≡ a

-- Each thread has the property, and the next pass starts from the first one.
pub record Nothing (P : KernelThread → Type 0) (a : ℕ) (k : KernelSide) : Type 0 where
  pub no_thread : a ≡ 0
  pub from_start : k.list.current_thread ≡ 0
  pub all_waiting : All P k.list.threads

-- A pass comes to one of the two.
abbrev pub Passed : (KernelThread → Type 0) → Option (ℕ × KernelSide) → Type 0
Passed P result =
    (a : ℕ) × (k : KernelSide) × (result ≡ some (a, k))
    × IsCounted k
    × (Switched a k ⊎ Nothing P a k)

ended-Passed :
    (P : KernelThread → Type 0) (k : KernelSide)
    → IsSide P k
    → remaining k ≡ []
    → Passed P (some (0, record k { list = record k.list { current_thread = 0 } }))
ended-Passed P k v e = (
  0,
  record k { list = record k.list { current_thread = 0 } },
  refl,
  record { linked = v.sound.linked; counted = v.sound.counted; few = v.sound.few },
  inr (record {
    no_thread = refl;
    from_start = refl;
    all_waiting = ahead-All thread_address P k.list.current_thread k.list.threads e v.looked;
  }),
)

taken-Passed :
    (P : KernelThread → Type 0) (t : KernelThread) (rest : List KernelThread) (k : KernelSide)
    → IsSide P k
    → remaining k ≡ t ∷ rest
    → t.kill_me ≡ false
    → t.is_blocked ≡ false
    → t.sleeping ≡ false
    → Passed P (some (t.address, record (moved t k) { current_kernel_thread = t.address }))
taken-Passed P t rest k v e live free awake = (
  t.address,
  record (moved t k) { current_kernel_thread = t.address },
  refl,
  record { linked = v.sound.linked; counted = v.sound.counted; few = v.sound.few },
  inl (record {
    thread = t;
    listed = ahead-find thread_address k.list.current_thread t k.list.threads rest v.sound.linked e;
    live = live;
    free = free;
    awake = awake;
    at_thread =
        ahead-nonzero thread_address k.list.current_thread t k.list.threads rest v.sound.linked e;
    last = refl;
    running = refl;
  }),
)

woken-Passed :
    (P : KernelThread → Type 0) (t : KernelThread) (rest : List KernelThread) (k : KernelSide)
    → IsSide P k
    → remaining k ≡ t ∷ rest
    → t.kill_me ≡ false
    → t.is_blocked ≡ false
    → Passed P (some (t.address, record (woken t k) { current_kernel_thread = t.address }))
woken-Passed P t rest k v e live free =
    let wake : KernelThread → KernelThread = (λ s. record s { sleeping = false }) in
    let found =
      ahead-find thread_address k.list.current_thread t k.list.threads rest v.sound.linked e in
    (
      t.address,
      record (woken t k) { current_kernel_thread = t.address },
      refl,
      record {
        linked =
            IsLinked-change thread_address wake (λ s. refl) t.address k.list.threads v.sound.linked;
        counted =
            v.sound.counted ∙ sym (length-change thread_address wake t.address k.list.threads);
        few = rw length-change v.sound.few;
      },
      inl (record {
        thread = record t { sleeping = false };
        listed = find-change thread_address wake (λ s. refl) t.address t k.list.threads found;
        live = live;
        free = free;
        awake = refl;
        at_thread =
            ahead-nonzero thread_address k.list.current_thread t k.list.threads rest v.sound.linked
              e;
        last = refl;
        running = refl;
      }),
    )

-- A pass with enough fuel, for a property of the threads that it leaves where they are.
pub kernel_pass-outcome :
    (P : KernelThread → Type 0) (fuel time : ℕ) (k : KernelSide)
    → ((t : KernelThread) → is_waiting time t ≡ true → P t)
    → IsSide P k
    → rounds_left k < fuel
    → Passed P (kernel_pass fuel time k)
unfolding kernel_pass
kernel_pass-outcome P zero time k w v h = absurd (omega arith)
kernel_pass-outcome P (suc fuel) time k w v h = elim (kernel_round-Outcome time k) [
  | at_end e r ↦ rw (kernel_pass, r) (ended-Passed P k v e)
  | kills t rest e kill r ↦
      let fewer = killed-rounds_left t rest k v.sound.linked e in
      rw (kernel_pass, r)
        (kernel_pass-outcome P fuel time (killed t k) w (killed-IsSide P t rest k v e)
          (omega (arith, fewer, h)))
  | passes t rest e waiting r ↦
      let fewer = moved-rounds_left t rest k v.sound.linked e in
      rw (kernel_pass, r)
        (kernel_pass-outcome P fuel time (moved t k) w (moved-IsSide P t rest k v e (w t waiting))
          (omega (arith, fewer, h)))
  | takes t rest e live free awake r ↦
      rw (kernel_pass, r) (taken-Passed P t rest k v e live free awake)
  | wakes t rest e live free over r ↦ rw (kernel_pass, r) (woken-Passed P t rest k v e live free)
]

-- From a well-formed list in which all that was looked at waits (for a pass from the start: nothing
-- was), and with more fuel than rounds left, the pass has a result with a well-formed list, counted
-- right: it switches to a thread of the list that is neither killed nor blocked nor asleep, or
-- every thread of the list is blocked or asleep, and none is to be killed.
pub kernel_pass-Passed :
    (fuel time : ℕ) (k : KernelSide)
    → IsSide (λ t. is_waiting time t ≡ true) k
    → rounds_left k < fuel
    → Passed (λ t. is_waiting time t ≡ true) (kernel_pass fuel time k)
kernel_pass-Passed fuel time k v h =
    kernel_pass-outcome (λ t. is_waiting time t ≡ true) fuel time k (λ t w. w) v h
