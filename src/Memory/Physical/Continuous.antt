-- ===== src/Memory/Physical/Continuous.antt =====
-- `pm_alloc_continuous_memory` takes a block of consecutive pages out of the stack.
use blesk_os.Common.{
  ℕ, zero, suc, ◌+◌, ◌-◌, ◌*◌, ◌^◌, ◌≤◌, ◌<◌, ◌≡◌, ◌≢◌, refl, subst, Option, none, some, ◌==◌,
  arith, add32, ltb, Bool-cases, inl, inr,
}
use blesk_os.Memory.Pages.{page_size}
use blesk_os.Memory.Physical.{
  PhyMem, run_length, move_down, search_run, pages_of, alloc_continuous_memory,
}

-- The run that is found from `s` downwards: each page is a page above the one on top of it.
record Run (n s : ℕ) (stack : ℕ → ℕ) (r : ℕ × ℕ) : Type 0 where
  size : r.0 + r.1 ≡ n + s
  low : r.1 ≤ s
  next : (k : ℕ) → r.1 ≤ k → k < s → add32 (stack (suc k)) page_size ≡ stack k

run_length-Run : (n s : ℕ) (stack : ℕ → ℕ) → Run n s stack (run_length n s stack)
unfolding run_length
run_length-Run n zero stack = record {
  size = omega arith;
  low = omega arith;
  next = λ k a b. absurd (omega arith);
}
run_length-Run n (suc s) stack = elim (Bool-cases (add32 (stack (suc s)) page_size == stack s)) [
  | inl hit ↦
      let ih = run_length-Run (n + 1) s stack in
      rw hit (record {
        size = omega (arith, ih.size);
        low = omega (arith, ih.low);
        next = λ k a b. elim (Bool-cases (k == s)) [
          | inl here ↦ ground arith
          | inr other ↦ ih.next k a (ground arith)
        ];
      })
  | inr miss ↦
      rw miss
        (record { size = omega arith; low = omega arith; next = λ k a b. absurd (omega arith) })
]

-- A block of `need` pages whose top is the word `top` was taken out: its pages are consecutive,
-- its lowest page is `page`, and the pages above it move down into its place.
pub record Taken (need : ℕ) (m : PhyMem) (page : ℕ) (m' : PhyMem) : Type 0 where
  pub top : ℕ
  pub inside : top < m.stack_pointer
  pub long : need ≤ top + 1
  pub lowest : page ≡ m.stack top
  pub next : (k : ℕ) → top + 1 ≤ k + need → k < top → add32 (m.stack (suc k)) page_size ≡ m.stack k
  pub pointer : m'.stack_pointer + need ≡ m.stack_pointer
  pub below : (k : ℕ) → k + need < top + 1 → m'.stack k ≡ m.stack k
  pub above : (k : ℕ) → top + 1 ≤ k + need → k < m'.stack_pointer → m'.stack k ≡ m.stack (k + need)

-- What a search that found the run `r` from `suc s` on makes of the state.
abbrev found : ℕ → ℕ → PhyMem → PhyMem
found need s m = record m {
  stack = move_down m.stack (suc s + 1) need (m.stack_pointer - (suc s + 1));
  stack_pointer = m.stack_pointer - need;
  number_of_allocated_pages = add32 m.number_of_allocated_pages need;
}

found-Taken :
    (need s : ℕ) (m : PhyMem) (r : ℕ × ℕ)
    → suc s < m.stack_pointer
    → Run 1 (suc s) m.stack r
    → need ≤ r.0
    → Taken need m (m.stack (suc s)) (found need s m)
found-Taken need s m r h run long = record {
  top = suc s;
  inside = h;
  long = omega (arith, run.size);
  lowest = refl;
  next = λ k a b. run.next k (omega (arith, run.size)) b;
  pointer = omega (arith, run.size);
  below = λ k a. ground arith;
  above = λ k a b. ground arith;
}

-- A result that gives a page.
abbrev TakenBy : ℕ → PhyMem → Option (Option (ℕ × PhyMem)) → Type 0
TakenBy need m none = Unit
TakenBy need m (some none) = Unit
TakenBy need m (some (some (page, m'))) = Taken need m page m'

search_run-Taken :
    (fuel need s : ℕ) (m : PhyMem) (page : ℕ) (m' : PhyMem)
    → s ≤ m.stack_pointer - 1
    → search_run fuel need s m ≡ some (some (page, m'))
    → Taken need m page m'
unfolding search_run
search_run-Taken zero need s m page m' h e = absurd (cc)
search_run-Taken (suc fuel) need zero m page m' h e = absurd (cc)
search_run-Taken (suc fuel) need (suc s) m page m' h e =
    let r = run_length 1 (suc s) m.stack in
    let run = run_length-Run 1 (suc s) m.stack in
    elim (Bool-cases (ltb r.0 need)) [
      | inl short ↦
          search_run-Taken fuel need (r.1 - 1) m page m' (omega (arith, run.low))
            (rw (search_run, short) at e)
      | inr long ↦
          subst (TakenBy need m) (rw (search_run, long) at e)
            (found-Taken need s m r (omega arith) run (ground arith))
    ]

search_run-total : (fuel need s : ℕ) (m : PhyMem) → s < fuel → search_run fuel need s m ≢ none
unfolding search_run
search_run-total zero need s m h = absurd (omega arith)
search_run-total (suc fuel) need zero m h = λ e. cc
search_run-total (suc fuel) need (suc s) m h = ground (
  arith,
  run_length-Run 1 (suc s) m.stack,
  search_run-total fuel need ((run_length 1 (suc s) m.stack).1 - 1) m,
)

-- An allocation always comes to an end, with a page or with NULL.
alloc_continuous_memory-total : (size : ℕ) (m : PhyMem) → alloc_continuous_memory size m ≢ none
unfolding alloc_continuous_memory
alloc_continuous_memory-total size m = elim (Bool-cases (ltb m.stack_pointer (pages_of size * 4))) [
  | inl few ↦ rw few (λ e. cc)
  | inr enough ↦
      rw enough (
        search_run-total (m.stack_pointer + 1) (pages_of size) (m.stack_pointer - 1) m
          (omega arith))
]

-- A size that does not wrap around is rounded up to pages.
pages_of-least :
    (size : ℕ)
    → size ≤ 2 ^ 32 - page_size
    → (size ≤ pages_of size * page_size) × (pages_of size * page_size < size + page_size)
unfolding pages_of
pages_of-least size h = (ground arith, ground arith)

-- For a size of at most 2^32 - 4096 bytes, an allocation that gives a page has taken a block of
-- consecutive pages out of the stack, and no other page: as few pages as hold the size, so none for a
-- size of 0.
pub alloc_continuous_memory-Taken :
    (size : ℕ) (m : PhyMem) (page : ℕ) (m' : PhyMem)
    → size ≤ 2 ^ 32 - page_size
    → alloc_continuous_memory size m ≡ some (some (page, m'))
    → (need : ℕ) × (size ≤ need * page_size)
      × (need * page_size < size + page_size)
      × Taken need m page m'
unfolding alloc_continuous_memory
alloc_continuous_memory-Taken size m page m' h e =
    let least = pages_of-least size h in
    elim (Bool-cases (ltb m.stack_pointer (pages_of size * 4))) [
      | inl few ↦ absurd (cc (rw (alloc_continuous_memory, few) at e))
      | inr enough ↦ (
        pages_of size,
        least.0,
        least.1,
        search_run-Taken (m.stack_pointer + 1) (pages_of size) (m.stack_pointer - 1) m page m'
            (omega arith) (rw (alloc_continuous_memory, enough) at e),
      )
    ]
