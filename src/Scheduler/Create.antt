-- ===== src/Scheduler/Create.antt =====
-- New kernel threads: `get_index_of_processor_for_new_kernel_thread` and
-- `create_kernel_thread_with_flags` of kernel/hardware/devices/cpu/scheduler.c.
pub mod Stacks
pub mod Added
mod Tests
use blesk_os.Common.{
  ℕ, zero, suc, ◌+◌, ◌-◌, ◌*◌, ◌^◌, ◌<◌, ◌≤◌, Bool, true, false, not, Option, none, some, List, [],
  ◌∷◌, length, get_or, set, ◌==◌, ltb, if◌then◌else◌, add32, sub32, mul32, ◌≡◌, refl, sym, ◌∙◌, ap,
  subst, ◌⊎◌, inl, inr, arith, Bool-cases, ltb→lt, ltb→ge,
}
use blesk_os.Scheduler.Threads.{KernelThread, KernelThreadList}
use blesk_os.Scheduler.Tids.{get_unique_kernel_tid}

-- The loop over the processors behind the first: the index so far and its number of threads.
abbrev pub least_busy : ℕ → ℕ → ℕ → List ℕ → ℕ
least_busy i index num [] = index
least_busy i index num (n ∷ counts) =
    if ltb n num then least_busy (i + 1) i n counts else least_busy (i + 1) index num counts

-- The processors' fields `number_of_running_threads`; there is at least one processor.
abbrev pub get_index_of_processor_for_new_kernel_thread : List ℕ → ℕ
get_index_of_processor_for_new_kernel_thread [] = 0
get_index_of_processor_for_new_kernel_thread (n ∷ counts) = least_busy 1 0 n counts

-- The loop keeps what it has, or comes to a processor with less threads; none has fewer than its result.
abbrev LeastBehind : ℕ → ℕ → ℕ → List ℕ → Type 0
LeastBehind i index num counts =
    ((least_busy i index num counts ≡ index)
      × ((j : ℕ) → j < length counts → num ≤ get_or counts j 0))
    ⊎ ((k : ℕ) × (least_busy i index num counts ≡ i + k)
        × (k < length counts)
        × (get_or counts k 0 < num)
        × ((j : ℕ) → j < length counts → get_or counts k 0 ≤ get_or counts j 0))

least_of :
    (n b : ℕ) (counts : List ℕ)
    → b ≤ n
    → ((j : ℕ) → j < length counts → b ≤ get_or counts j 0)
    → (j : ℕ) → j < suc (length counts)
    → b ≤ get_or (n ∷ counts) j 0
least_of n b counts h rest zero l = h
least_of n b counts h rest (suc j) l = rest j (omega (arith, l))

least_busy-LeastBehind : (i index num : ℕ) (counts : List ℕ) → LeastBehind i index num counts
least_busy-LeastBehind i index num [] = inl (refl, λ j h. absurd (omega arith))
least_busy-LeastBehind i index num (n ∷ counts) = elim (Bool-cases (ltb n num)) [
  | inl fewer ↦
      let less = ltb→lt n num fewer in
      elim (least_busy-LeastBehind (i + 1) i n counts) [
        | inl same ↦ inr (
          0,
          rw fewer (same.0 ∙ omega arith),
          omega arith,
          less,
          least_of n n counts (omega arith) (same.1),
        )
        | inr later ↦ inr (
          suc (later.0),
          rw fewer (later.1 ∙ omega arith),
          omega (arith, later.2),
          omega (arith, later.3, less),
          least_of n (get_or counts (later.0) 0) counts (omega (arith, later.3)) (later.4),
        )
      ]
  | inr more ↦
      let as_many : num ≤ n = ltb→ge n num more in
      elim (least_busy-LeastBehind (i + 1) index num counts) [
        | inl same ↦ inl (rw more (same.0), least_of n num counts as_many (same.1))
        | inr later ↦ inr (
          suc (later.0),
          rw more (later.1 ∙ omega arith),
          omega (arith, later.2),
          later.3,
          least_of n (get_or counts (later.0) 0) counts (omega (arith, later.3, as_many)) (later.4),
        )
      ]
]

-- The processor for a new kernel thread is one of the processors, and none has fewer running threads.
pub get_index_of_processor_for_new_kernel_thread-least :
    (counts : List ℕ)
    → 0 < length counts
    → let index = get_index_of_processor_for_new_kernel_thread counts in
      (index < length counts)
      × ((j : ℕ) → j < length counts → get_or counts index 0 ≤ get_or counts j 0)
get_index_of_processor_for_new_kernel_thread-least [] h = absurd (omega arith)
get_index_of_processor_for_new_kernel_thread-least (n ∷ counts) h =
    elim (least_busy-LeastBehind 1 0 n counts) [
      | inl first ↦ rw (first.0) (omega arith, least_of n n counts (omega arith) (first.1))
      | inr later ↦
          let place : least_busy 1 0 n counts ≡ suc (later.0) = later.1 ∙ omega arith in
          rw place (
            omega (arith, later.2),
            least_of n (get_or counts (later.0) 0) counts (omega (arith, later.3)) (later.4),
          )
    ]

-- The memory by 32-bit words, and a pointer that goes down through it.
pub record Stack : Type 0 where
  pub pointer : ℕ
  pub words : ℕ → ℕ

abbrev pub put_word : ℕ → ℕ → (ℕ → ℕ) → ℕ → ℕ
put_word a v words b = if b == a then v else words b

-- `stack_pointer--; *stack_pointer = value;`
abbrev pub push_word : ℕ → Stack → Stack
push_word v s =
    let below = sub32 s.pointer 4 in record { pointer = below; words = put_word below v s.words }

-- The arguments, from the last one to the first one.
abbrev pub push_arguments : List ℕ → Stack → Stack
push_arguments [] s = s
push_arguments (x ∷ arguments) s = push_word x (push_arguments arguments s)

abbrev pub kernel_stack_size : ℕ
kernel_stack_size = 1024 * 32

-- `sizeof(kernel_interrupt_stack_t)`, and its fields that are set.
abbrev pub interrupt_stack_size : ℕ
interrupt_stack_size = 68

unfoldable pub interrupt_frame : ℕ → Stack → Stack
interrupt_frame function s =
    let frame = sub32 s.pointer interrupt_stack_size in
    record {
      pointer = frame;
      words = put_word frame 0x10 (
          put_word (add32 frame 4) 0x10 (
            put_word (add32 frame 8) 0x10 (
              put_word (add32 frame 12) 0x10 (
                put_word (add32 frame 64) 0x202
                  (put_word (add32 frame 60) 0x08 (put_word (add32 frame 56) function s.words))))));
    }

-- The stack of a new thread; `close` is the address of `close_current_thread`.
unfoldable pub new_stack : ℕ → ℕ → ℕ → List ℕ → (ℕ → ℕ) → Stack
new_stack close kernel_stack function arguments words =
    let top : Stack = record { pointer = add32 kernel_stack kernel_stack_size; words = words } in
    interrupt_frame function (push_word close (push_arguments arguments top))

-- What `create_kernel_thread_with_flags` changes: the map of numbers, the list of the processor, the memory
-- and the processors that were sent an interrupt, with the stack pointer of the new thread.
pub record Created : Type 0 where
  pub tid_map : List Bool
  pub list : KernelThreadList
  pub words : ℕ → ℕ
  pub kernel_stack_pointer : ℕ
  pub ipis : List ℕ

-- The new thread goes to the front of the list.
unfoldable pub add_thread : ℕ → KernelThread → Created → Created
add_thread processor t c =
    let l = record c.list {
      number_of_running_threads = add32 c.list.number_of_running_threads 1;
      threads = t ∷ c.list.threads;
    } in
    if l.current_thread == 0
    then record c { list = record l { current_thread = t.address }; ipis = processor ∷ c.ipis }
    else record c { list = l }

-- `create_kernel_thread_with_flags`: the thread, or `none` for the value `ERROR`. The address of the thread
-- and of its stack are what `block_alloc` and `kalloc` returned.
unfoldable pub create_kernel_thread_with_flags :
    ℕ → ℕ → ℕ → ℕ → ℕ → ℕ → List ℕ → ℕ → Bool → Created → Option KernelThread × Created
create_kernel_thread_with_flags close address kernel_stack time processor function arguments
      microseconds is_blocked c =
    let numbered = get_unique_kernel_tid processor c.tid_map in
    if numbered.0 == 0
    then (none, record c { tid_map = numbered.1 })
    else (let t : KernelThread = record {
      address = address;
      id = numbered.0;
      kernel_stack = kernel_stack;
      is_blocked = is_blocked;
      kill_me = false;
      sleeping = not (microseconds == 0);
      time_end_of_sleep = if microseconds == 0 then 0 else add32 time microseconds;
    } in
        let stack = new_stack close kernel_stack function arguments c.words in
        (
          some t,
          add_thread processor t (record c {
            tid_map = numbered.1;
            words = stack.words;
            kernel_stack_pointer = stack.pointer;
          }),
        ))
