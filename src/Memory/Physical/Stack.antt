-- ===== src/Memory/Physical/Stack.antt =====
-- The global stack of pages: `pm_direct_alloc_page` and `pm_direct_free_page`.
use blesk_os.Common.{
  ℕ, zero, suc, ◌+◌, ◌-◌, ◌^◌, ◌≤◌, ◌<◌, ◌≡◌, ◌≢◌, ◌⊎◌, inl, inr, ℕ_discrete, refl, ap, ap₂, ◌∙◌,
  none, some, List, [], ◌∷◌, arith, add32, sub32,
}
use blesk_os.Memory.Physical.{PhyMem, write, push, direct_alloc_page, direct_free_page}

-- The pages on a stack of `n` words, the last one first.
unfoldable pub contents : ℕ → (ℕ → ℕ) → List ℕ
contents zero f = []
contents (suc n) f = f n ∷ contents n f

pub contents-write : (n i v : ℕ) (f : ℕ → ℕ) → n ≤ i → contents n (write f i v) ≡ contents n f
unfolding contents
contents-write zero i v f h = refl
contents-write (suc n) i v f h = ground (arith, contents-write n i v f)

abbrev pub free_pages : PhyMem → List ℕ
free_pages m = contents m.stack_pointer m.stack

contents_of_ne_zero : (n : ℕ) (f : ℕ → ℕ) → n ≢ 0 → contents n f ≡ f (n - 1) ∷ contents (n - 1) f
unfolding contents
contents_of_ne_zero zero f h = absurd (h refl)
contents_of_ne_zero (suc n) f h = ap (λ k. f k ∷ contents k f) (omega arith)

-- An allocation pops the page on top of the stack and counts it; it panics exactly on the empty
-- stack.
direct_alloc_page-pop :
    (m : PhyMem)
    → ((direct_alloc_page m ≡ none) × (free_pages m ≡ []))
      ⊎ ((page : ℕ) × (m' : PhyMem) × (direct_alloc_page m ≡ some (page, m'))
          × (free_pages m ≡ page ∷ free_pages m')
          × (m'.number_of_allocated_pages ≡ add32 m.number_of_allocated_pages 1))
unfolding direct_alloc_page contents
direct_alloc_page-pop m = elim (ℕ_discrete m.stack_pointer 0) [
  | yes e ↦ inl (ground arith, ap (λ n. contents n m.stack) e)
  | no ne ↦ inr (
    m.stack (m.stack_pointer - 1),
    record m {
      stack_pointer = m.stack_pointer - 1;
      number_of_allocated_pages = add32 m.number_of_allocated_pages 1;
    },
    ground arith,
    contents_of_ne_zero m.stack_pointer m.stack ne,
    refl,
  )
]

-- On a stack with room, below 2 ^ 32 pages in use, a page that is freed and the state it leads to:
-- the next allocation gives that page back and restores the free pages and the count.
direct_free_page-alloc :
    (page : ℕ) (m : PhyMem)
    → m.stack_pointer ≢ m.stack_last_entry
    → m.number_of_allocated_pages < 2 ^ 32
    → (m' m'' : PhyMem) × (direct_free_page page m ≡ some m')
      × (free_pages m' ≡ page ∷ free_pages m)
      × (direct_alloc_page m' ≡ some (page, m''))
      × (free_pages m'' ≡ free_pages m)
      × (m''.number_of_allocated_pages ≡ m.number_of_allocated_pages)
unfolding direct_free_page direct_alloc_page push
direct_free_page-alloc page m h k =
    let m' = record (push page m) {
      number_of_allocated_pages = sub32 m.number_of_allocated_pages 1;
    } in
    let same = contents-write m.stack_pointer m.stack_pointer page m.stack (omega arith) in
    let top : (m.stack_pointer + 1 - 1) ≡ m.stack_pointer = omega arith in
    (
      m',
      record m' {
        stack_pointer = m'.stack_pointer - 1;
        number_of_allocated_pages = add32 m'.number_of_allocated_pages 1;
      },
      ground arith,
      contents_of_ne_zero (m.stack_pointer + 1) m'.stack (omega arith)
          ∙ rw top (ap₂ ◌∷◌ (ground arith) same),
      ground arith,
      rw top same,
      omega arith,
    )
