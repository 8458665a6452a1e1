-- ===== src/Scheduler/Kernel/Kept.antt =====
-- Threads that are not to be killed keep their place.
use blesk_os.Common.{
  ℕ, zero, suc, true, false, Option, some, List, ◌∷◌, ◌==◌, All, ◌≡◌, refl, sym, ◌∙◌, ap, subst,
  ◌⊎◌, inl, inr, arith, Bool-cases,
}
use blesk_os.Scheduler.Threads.{KernelThread, thread_address}
use blesk_os.Scheduler.Linked.{without, find, IsLinked}
use blesk_os.Scheduler.Linked.Chain.{ahead-find}
use blesk_os.Scheduler.Linked.Removal.{find-without, find-change_any}
use blesk_os.Scheduler.Kernel.{KernelSide, kill_kernel_thread, kernel_pass}
use blesk_os.Scheduler.Kernel.Rounds.{
  remaining, moved, killed, woken, at_end, kills, passes, takes, wakes, kernel_round-Outcome,
}
use blesk_os.Scheduler.Kernel.Passes.{IsCounted, killed_threads, killed-IsCounted}

-- A thread with a number and a stack is in the list, is not to be killed, and its memory was not given
-- back.
pub record Stays (a id stack : ℕ) (k : KernelSide) : Type 0 where
  pub thread : KernelThread
  pub listed : find thread_address a k.list.threads ≡ some thread
  pub live : thread.kill_me ≡ false
  pub same_id : thread.id ≡ id
  pub same_stack : thread.kernel_stack ≡ stack
  pub not_freed : All (λ f. (f == a) ≡ false) k.freed

killed-freed : (t : KernelThread) (k : KernelSide) → (killed t k).freed ≡ t.address ∷ k.freed
unfolding kill_kernel_thread
killed-freed t k = elim (Bool-cases (t.kernel_stack == 0)) [
  | inl null ↦ rw null refl
  | inr stack ↦ rw stack refl
]

pub killed-find :
    (a : ℕ) (s t : KernelThread) (k : KernelSide)
    → find thread_address a k.list.threads ≡ some s
    → (a == t.address) ≡ false
    → (find thread_address a (killed t k).list.threads ≡ some s)
      ⊎ (find thread_address a (killed t k).list.threads ≡ some (record s { is_blocked = false }))
killed-find a s t k e apart =
    let unblock : KernelThread → KernelThread = (λ s. record s { is_blocked = false }) in
    let rest : List KernelThread = without thread_address t.address k.list.threads in
    let here = find-without thread_address a t.address k.list.threads apart ∙ e in
    elim (killed_threads t k) [
      | inl same ↦ inl (rw same here)
      | inr changed ↦
          let there =
            find-change_any thread_address unblock (λ x. refl) a k.cleaning_thread s rest here in
          elim (Bool-cases (s.address == k.cleaning_thread)) [
            | inl cleaner ↦ inr (rw (changed, there, cleaner) refl)
            | inr other ↦ inl (rw (changed, there, other) refl)
          ]
    ]

killed-Stays :
    (a id stack : ℕ) (t : KernelThread) (rest : List KernelThread) (k : KernelSide)
    → IsLinked thread_address k.list.threads
    → remaining k ≡ t ∷ rest
    → t.kill_me ≡ true
    → Stays a id stack k
    → Stays a id stack (killed t k)
killed-Stays a id stack t rest k v e kill s =
    let found = ahead-find thread_address k.list.current_thread t k.list.threads rest v e in
    elim (Bool-cases (a == t.address)) [
      | inl same ↦
          let here : a ≡ t.address = ground arith in
          let it : some s.thread ≡ some t =
            sym s.listed ∙ ap (λ x. find thread_address x k.list.threads) here ∙ found in
          let it' : s.thread ≡ t = ground (arith, it) in
          absurd (ground (arith, s.live, kill, ap (λ (x : KernelThread). x.kill_me) it'))
      | inr apart ↦
          let freed = killed-freed t k in
          let apart' : (t.address == a) ≡ false = ground arith in
          elim (killed-find a s.thread t k s.listed apart) [
            | inl listed ↦ record {
              thread = s.thread;
              listed = listed;
              live = s.live;
              same_id = s.same_id;
              same_stack = s.same_stack;
              not_freed = rw freed (apart', s.not_freed);
            }
            | inr listed ↦ record {
              thread = record (s.thread) { is_blocked = false };
              listed = listed;
              live = s.live;
              same_id = s.same_id;
              same_stack = s.same_stack;
              not_freed = rw freed (apart', s.not_freed);
            }
          ]
    ]

woken-Stays :
    (a id stack : ℕ) (t : KernelThread) (k : KernelSide)
    → Stays a id stack k
    → Stays a id stack (woken t k)
woken-Stays a id stack t k s =
    let wake : KernelThread → KernelThread = (λ x. record x { sleeping = false }) in
    let listed =
      find-change_any thread_address wake (λ x. refl) a t.address s.thread k.list.threads
        s.listed in
    elim (Bool-cases (s.thread.address == t.address)) [
      | inl same ↦ record {
        thread = record (s.thread) { sleeping = false };
        listed = rw (listed, same) refl;
        live = s.live;
        same_id = s.same_id;
        same_stack = s.same_stack;
        not_freed = s.not_freed;
      }
      | inr other ↦ record {
        thread = s.thread;
        listed = rw (listed, other) refl;
        live = s.live;
        same_id = s.same_id;
        same_stack = s.same_stack;
        not_freed = s.not_freed;
      }
    ]

abbrev result : ℕ → KernelSide → Option (ℕ × KernelSide)
result b k = some (b, k)

same_side :
    (a id stack b c : ℕ) (k k' : KernelSide)
    → Stays a id stack k
    → result b k ≡ result c k'
    → Stays a id stack k'
same_side a id stack b c k k' s e =
    let same : k ≡ k' = ground (arith, e) in subst (Stays a id stack) same s

-- The same when only the pointers to the current thread differ.
pointed :
    (a id stack : ℕ) (k k' : KernelSide)
    → k.list.threads ≡ k'.list.threads
    → k.freed ≡ k'.freed
    → Stays a id stack k
    → Stays a id stack k'
pointed a id stack k k' e f s = record {
  thread = s.thread;
  listed = rw (← e) s.listed;
  live = s.live;
  same_id = s.same_id;
  same_stack = s.same_stack;
  not_freed = rw (← f) s.not_freed;
}

-- A pass through a well-formed list that comes to a result keeps every thread without the flag
-- `kill_me` in the list, with its number and its stack, and does not free it.
pub kernel_pass-Stays :
    (fuel time a id stack b : ℕ) (k k' : KernelSide)
    → IsCounted k
    → Stays a id stack k
    → kernel_pass fuel time k ≡ some (b, k')
    → Stays a id stack k'
unfolding kernel_pass
kernel_pass-Stays zero time a id stack b k k' v s r = absurd (ground arith)
kernel_pass-Stays (suc fuel) time a id stack b k k' v s r = elim (kernel_round-Outcome time k) [
  | at_end e o ↦
      same_side a id stack 0 b (record k { list = record k.list { current_thread = 0 } }) k'
        (pointed a id stack k (record k { list = record k.list { current_thread = 0 } }) refl refl
          s)
        (rw (kernel_pass, o) at r)
  | kills t rest e kill o ↦
      kernel_pass-Stays fuel time a id stack b (killed t k) k' (killed-IsCounted t rest k v e)
        (killed-Stays a id stack t rest k v.linked e kill s) (rw (kernel_pass, o) at r)
  | passes t rest e waiting o ↦
      kernel_pass-Stays fuel time a id stack b (moved t k) k'
        (record { linked = v.linked; counted = v.counted; few = v.few })
        (pointed a id stack k (moved t k) refl refl s) (rw (kernel_pass, o) at r)
  | takes t rest e live free awake o ↦
      same_side a id stack t.address b (record (moved t k) { current_kernel_thread = t.address }) k'
        (pointed a id stack k (record (moved t k) { current_kernel_thread = t.address }) refl refl
          s)
        (rw (kernel_pass, o) at r)
  | wakes t rest e live free over o ↦
      let w = woken-Stays a id stack t k s in
      same_side a id stack t.address b (record (woken t k) { current_kernel_thread = t.address }) k'
        (pointed a id stack (woken t k) (record (woken t k) { current_kernel_thread = t.address })
          refl refl w)
        (rw (kernel_pass, o) at r)
]
