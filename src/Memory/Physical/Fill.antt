-- ===== src/Memory/Physical/Fill.antt =====
-- The loop of `initialize_physical_memory` that pushes every page of an aligned entry.
use blesk_os.Common.{
  ℕ, zero, suc, ◌+◌, ◌-◌, ◌*◌, ◌/◌, ◌%◌, ◌^◌, ◌≤◌, ◌<◌, ◌≡◌, refl, subst, some, ◌==◌, arith, add32,
  sub32, mul32, ltb, Bool-cases, inl, inr,
}
use blesk_os.Memory.Pages.{page_size}
use blesk_os.Memory.Physical.{Entry, PhyMem, push, push_pages, chunk_pages, fill_entry}

-- `n` consecutive pages from `page` on are pushed.
pub record Pushed (n page : ℕ) (m m' : PhyMem) : Type 0 where
  pub pointer : m'.stack_pointer ≡ m.stack_pointer + n
  pub new : (k : ℕ) → k < n → m'.stack (m.stack_pointer + k) ≡ page + k * 0x1000
  pub old : (k : ℕ) → k < m.stack_pointer → m'.stack k ≡ m.stack k

push_pages-Pushed :
    (n page : ℕ) (m : PhyMem) → page + n * 0x1000 ≤ 2 ^ 32 → Pushed n page m (push_pages n page m)
unfolding push_pages push
push_pages-Pushed zero page m h = record {
  pointer = omega arith;
  new = λ k l. absurd (omega arith);
  old = λ k l. refl;
}
push_pages-Pushed (suc n) page m h =
    let m1 : PhyMem = record (push page m) {
      number_of_all_pages = add32 m.number_of_all_pages 1;
    } in
    let ih = push_pages-Pushed n (add32 page page_size) m1 (omega arith) in
    record {
      pointer = omega (arith, ih.pointer);
      new = λ k l. elim (Bool-cases (k == 0)) [
        | inl first ↦ ground (arith, ih.old m.stack_pointer)
        | inr later ↦ ground (arith, ih.new (k - 1))
      ];
      old = λ k l. ground (arith, ih.old k);
    }

Pushed-trans :
    (a b page : ℕ) (m m1 m' : PhyMem)
    → Pushed a page m m1
    → Pushed b ((page + a * 0x1000) % 2 ^ 32) m1 m'
    → page + (a + b) * 0x1000 ≤ 2 ^ 32
    → Pushed (a + b) page m m'
Pushed-trans a b page m m1 m' p q h = record {
  pointer = omega (arith, p.pointer, q.pointer);
  new = λ k l. elim (Bool-cases (ltb k a)) [
    | inl first ↦ ground (arith, p.pointer, p.new k, q.old (m.stack_pointer + k))
    | inr later ↦ ground (arith, p.pointer, q.new (k - a))
  ];
  old = λ k l. ground (arith, p.pointer, p.old k, q.old k);
}

chunk_pages_bounds :
    (size : ℕ) → (chunk_pages size ≤ size / 0x1000) × (0x1000 ≤ size → 0 < chunk_pages size)
unfolding chunk_pages
chunk_pages_bounds size = (ground arith, λ h. ground arith)

-- The entry behind one round.
abbrev behind : Entry → ℕ → Entry
behind e n = record {
  memory_start = add32 e.memory_start (mul32 n page_size);
  memory_size = sub32 e.memory_size (mul32 n page_size);
}

Pushed-eq : (a b p q : ℕ) (m m' : PhyMem) → a ≡ b → p ≡ q → Pushed a p m m' → Pushed b q m m'
Pushed-eq a b p q m m' e f x =
    subst (λ (t : ℕ). Pushed b t m m') f (subst (λ (t : ℕ). Pushed t p m m') e x)

-- One round and the rounds behind it.
fill_step :
    (e : Entry) (n : ℕ) (m m' : PhyMem)
    → n ≤ e.memory_size / 0x1000
    → e.memory_size < 2 ^ 32
    → e.memory_start + e.memory_size ≤ 2 ^ 32
    → Pushed
        ((behind e n).memory_size / 0x1000)
        (behind e n).memory_start
        (push_pages n e.memory_start m)
        m'
    → Pushed (e.memory_size / 0x1000) e.memory_start m m'
fill_step e n m m' a s b x =
    let size : (behind e n).memory_size / 0x1000 ≡ e.memory_size / 0x1000 - n = omega arith in
    let start : (behind e n).memory_start ≡ (e.memory_start + n * 0x1000) % 2 ^ 32 = omega arith in
    let rest = Pushed-eq _ _ _ _ (push_pages n e.memory_start m) m' size start x in
    let first = push_pages-Pushed n e.memory_start m (omega arith) in
    Pushed-eq _ _ e.memory_start e.memory_start m m' (omega arith) refl (
      Pushed-trans n (e.memory_size / 0x1000 - n) e.memory_start m (push_pages n e.memory_start m)
        m' first rest (omega arith))

-- For an entry of whole pages that ends at 2 ^ 32 at most, with more fuel than pages, the loop
-- ends, and has pushed exactly the pages of the entry, in order, above the old ones.
fill_entry-Pushed :
    (fuel : ℕ) (e : Entry) (m : PhyMem)
    → e.memory_size % 0x1000 ≡ 0
    → e.memory_size < 2 ^ 32
    → e.memory_start + e.memory_size ≤ 2 ^ 32
    → e.memory_size / 0x1000 < fuel
    → (m' : PhyMem) × (fill_entry fuel e m ≡ some m')
      × Pushed (e.memory_size / 0x1000) e.memory_start m m'
unfolding fill_entry
fill_entry-Pushed zero e m a s b f = absurd (omega arith)
fill_entry-Pushed (suc fuel) e m a s b f = elim (Bool-cases (ltb 0 e.memory_size)) [
  | inr done ↦
      let empty : e.memory_size ≡ 0 = ground arith in
      (
        m,
        rw done refl,
        record { pointer = omega arith; new = λ k l. absurd (omega arith); old = λ k l. refl },
      )
  | inl more ↦
      let n = chunk_pages e.memory_size in
      let full : 0x1000 ≤ e.memory_size = ground arith in
      let bounds = chunk_pages_bounds e.memory_size in
      let some_pages : 0 < n = bounds.1 full in
      let (m', run, rest) =
        fill_entry-Pushed fuel (behind e n) (push_pages n e.memory_start m)
          (omega (arith, bounds.0)) (omega arith) (omega (arith, bounds.0))
          (omega (arith, bounds.0)) in
      (m', rw more run, fill_step e n m m' bounds.0 s b rest)
]
