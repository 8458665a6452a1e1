-- ===== src/Scheduler/Flags/Sleep.antt =====
-- A kernel thread that sleeps is not chosen before its time.
use blesk_os.Common.{
  ℕ, zero, suc, ◌^◌, ◌<◌, ◌≤◌, true, false, Option, some, List, ◌∷◌, ◌==◌, add32, sub32, ◌≡◌, ◌≢◌,
  refl, sym, ◌∙◌, ap, inl, inr, arith, Bool-cases,
}
use blesk_os.Scheduler.Threads.{KernelThread, thread_address, is_over}
use blesk_os.Scheduler.Linked.{find, IsLinked}
use blesk_os.Scheduler.Linked.Chain.{ahead-find}
use blesk_os.Scheduler.Linked.Removal.{find-change, IsLinked-change, length-change}
use blesk_os.Scheduler.Kernel.{KernelSide, kernel_pass}
use blesk_os.Scheduler.Kernel.Rounds.{
  remaining, moved, killed, woken, at_end, kills, passes, takes, wakes, kernel_round-Outcome,
}
use blesk_os.Scheduler.Kernel.Passes.{IsCounted, killed-IsCounted}
use blesk_os.Scheduler.Kernel.Kept.{killed-find}
use blesk_os.Scheduler.Flags.{update_sleeping_kernel_thread}

-- The thread at an address sleeps beyond a time and is not to be killed.
record Asleep (time a : ℕ) (k : KernelSide) : Type 0 where
  thread : KernelThread
  listed : find thread_address a k.list.threads ≡ some thread
  live : thread.kill_me ≡ false
  asleep : thread.sleeping ≡ true
  early : is_over time thread.time_end_of_sleep ≡ false

-- The thread at its address is the one that the pass is at.
same_thread :
    (a : ℕ) (s t : KernelThread) (rest : List KernelThread) (k : KernelSide)
    → IsLinked thread_address k.list.threads
    → remaining k ≡ t ∷ rest
    → find thread_address a k.list.threads ≡ some s
    → a ≡ t.address
    → s ≡ t
same_thread a s t rest k v e f here =
    let found = ahead-find thread_address k.list.current_thread t k.list.threads rest v e in
    let both : some s ≡ some t =
      sym f ∙ ap (λ x. find thread_address x k.list.threads) here ∙ found in
    ground (arith, both)

killed-Asleep :
    (time a : ℕ) (t : KernelThread) (rest : List KernelThread) (k : KernelSide)
    → IsLinked thread_address k.list.threads
    → remaining k ≡ t ∷ rest
    → t.kill_me ≡ true
    → Asleep time a k
    → Asleep time a (killed t k)
killed-Asleep time a t rest k v e kill s = elim (Bool-cases (a == t.address)) [
  | inl here ↦
      let same = same_thread a s.thread t rest k v e s.listed (ground (arith, here)) in
      absurd (ground (arith, s.live, kill, ap (λ (x : KernelThread). x.kill_me) same))
  | inr apart ↦ elim (killed-find a s.thread t k s.listed apart) [
    | inl listed ↦ record {
      thread = s.thread;
      listed = listed;
      live = s.live;
      asleep = s.asleep;
      early = s.early;
    }
    | inr listed ↦ record {
      thread = record (s.thread) { is_blocked = false };
      listed = listed;
      live = s.live;
      asleep = s.asleep;
      early = s.early;
    }
  ]
]

abbrev result : ℕ → KernelSide → Option (ℕ × KernelSide)
result b k = some (b, k)

first_of : (b c : ℕ) (k k' : KernelSide) → result b k ≡ result c k' → b ≡ c
first_of b c k k' e = ground (arith, e)

kernel_pass-Asleep :
    (fuel time a b : ℕ) (k k' : KernelSide)
    → (a == 0) ≡ false
    → IsCounted k
    → Asleep time a k
    → kernel_pass fuel time k ≡ some (b, k')
    → b ≢ a
unfolding kernel_pass
kernel_pass-Asleep zero time a b k k' n v s r = absurd (ground arith)
kernel_pass-Asleep (suc fuel) time a b k k' n v s r = elim (kernel_round-Outcome time k) [
  | at_end e o ↦ λ same.
      (let zero_first =
          first_of 0 b (record k { list = record k.list { current_thread = 0 } }) k'
            (rw (kernel_pass, o) at r) in
        absurd (ground (arith, zero_first, same, n)))
  | kills t rest e kill o ↦
      kernel_pass-Asleep fuel time a b (killed t k) k' n (killed-IsCounted t rest k v e)
        (killed-Asleep time a t rest k v.linked e kill s) (rw (kernel_pass, o) at r)
  | passes t rest e waiting o ↦
      kernel_pass-Asleep fuel time a b (moved t k) k' n
        (record { linked = v.linked; counted = v.counted; few = v.few })
        (record {
          thread = s.thread;
          listed = s.listed;
          live = s.live;
          asleep = s.asleep;
          early = s.early;
        })
        (rw (kernel_pass, o) at r)
  | takes t rest e live free awake o ↦ λ same.
      (let it =
          first_of t.address b (record (moved t k) { current_kernel_thread = t.address }) k'
            (rw (kernel_pass, o) at r) in
        let there =
          same_thread a s.thread t rest k v.linked e s.listed (ground (arith, it, same)) in
        absurd (ground (arith, s.asleep, awake, ap (λ (x : KernelThread). x.sleeping) there)))
  | wakes t rest e live free over o ↦ λ same.
      (let it =
          first_of t.address b (record (woken t k) { current_kernel_thread = t.address }) k'
            (rw (kernel_pass, o) at r) in
        let there =
          same_thread a s.thread t rest k v.linked e s.listed (ground (arith, it, same)) in
        let late : is_over time s.thread.time_end_of_sleep ≡ true =
          ap (λ (x : KernelThread). is_over time x.time_end_of_sleep) there ∙ over in
        absurd (ground (arith, s.early, late)))
]

not_over :
    (time later microseconds : ℕ)
    → time < 2 ^ 32
    → later < 2 ^ 32
    → microseconds < 2 ^ 31
    → sub32 later time ≤ microseconds
    → is_over later (add32 time microseconds) ≡ false
not_over time later microseconds a b c d = ground (arith, d)

-- A kernel thread of a well-formed list that is not to be killed and starts to sleep for less than
-- `2 ^ 31` microseconds is not what a later pass switches to, as long as not more time than that
-- has passed.
pub update_sleeping_kernel_thread-kernel_pass :
    (fuel time later a microseconds b : ℕ) (t : KernelThread) (k k' : KernelSide)
    → IsCounted k
    → (a == 0) ≡ false
    → find thread_address a k.list.threads ≡ some t
    → t.kill_me ≡ false
    → time < 2 ^ 32
    → later < 2 ^ 32
    → microseconds < 2 ^ 31
    → sub32 later time ≤ microseconds
    → kernel_pass fuel later (update_sleeping_kernel_thread time a microseconds k) ≡ some (b, k')
    → b ≢ a
unfolding update_sleeping_kernel_thread
update_sleeping_kernel_thread-kernel_pass fuel time later a microseconds b t k k' v n f live u w x y
      r =
    let sleep : KernelThread → KernelThread =
      (λ s. record s { time_end_of_sleep = add32 time microseconds; sleeping = true }) in
    kernel_pass-Asleep fuel later a b (update_sleeping_kernel_thread time a microseconds k) k' n
      (record {
        linked = IsLinked-change thread_address sleep (λ s. refl) a k.list.threads v.linked;
        counted = v.counted ∙ sym (length-change thread_address sleep a k.list.threads);
        few = rw length-change v.few;
      })
      (record {
        thread = sleep t;
        listed = find-change thread_address sleep (λ s. refl) a t k.list.threads f;
        live = live;
        asleep = refl;
        early = not_over time later microseconds u w x y;
      })
      r
