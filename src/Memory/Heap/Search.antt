-- ===== src/Memory/Heap/Search.antt =====
-- The search for the biggest free space.
use blesk_os.Common.{
  ==_iff, ltb→lt, ltb→ge, ℕ, zero, suc, ◌+◌, ◌≤◌, ◌<◌, ◌≡◌, refl, ◌⊎◌, inl, inr, Bool, true, false,
  some, ltb, ◌==◌, if◌then◌else◌, arith, Bool-cases,
}
use blesk_os.Memory.Heap.{Heap, free_space, find_biggest}
use blesk_os.Memory.Heap.Valid.{IsList}

-- What the search has found before `current`: nothing, or an entry with that space, and no entry that
-- was passed has more.
pub record Best (live : ℕ → Bool) (h : Heap) (passed : ℕ → Type 0) (r : ℕ × ℕ) : Type 0 where
  pub found : (r.0 ≡ 0) ⊎ ((live r.1 ≡ true) × (free_space h r.1 ≡ r.0))
  pub most : (a : ℕ) → live a ≡ true → passed a → free_space h a ≤ r.0

-- The entries behind `current`, all of them when it is NULL.
abbrev pub PassedBy : ℕ → ℕ → Type 0
PassedBy current a = (current ≡ 0) ⊎ (a < current)

-- Every entry that is passed with the next one was passed before or is the current one.
pub passed_next :
    (live : ℕ → Bool) (h : Heap) (current a : ℕ)
    → IsList live h
    → live current ≡ true
    → live a ≡ true
    → PassedBy (h.entry current).next a
    → (a < current) ⊎ (a ≡ current)
passed_next live h current a l e k p = elim (Bool-cases (ltb current a)) [
  | inl above ↦
      let least = l.next_least current a e k (ground arith) in absurd (ground (arith, least, p))
  | inr below ↦ ground arith
]

Best-step :
    (live : ℕ → Bool) (h : Heap) (current biggest who : ℕ)
    → IsList live h
    → live current ≡ true
    → Best live h (λ a. a < current) (biggest, who)
    → let better = ltb biggest (free_space h current) in
      Best live h
        (PassedBy (h.entry current).next)
        (if better then free_space h current else biggest, if better then current else who)
Best-step live h current biggest who l e b =
    let before : (a : ℕ)
        → live a ≡ true
        → PassedBy (h.entry current).next a
        → (a < current) ⊎ (a ≡ current) =
      λ a k p. passed_next live h current a l e k p in
    elim (Bool-cases (ltb biggest (free_space h current))) [
      | inl better ↦ rw better (record {
        found = inr (e, refl);
        most = λ a k p. elim (before a k p) [
          | inl lower ↦ omega (arith, b.most a k lower, ltb→lt _ _ better)
          | inr same ↦ rw same (omega arith)
        ];
      })
      | inr worse ↦ rw worse (record {
        found = b.found;
        most = λ a k p. elim (before a k p) [
          | inl lower ↦ b.most a k lower
          | inr same ↦ rw same (ltb→ge _ _ worse)
        ];
      })
    ]

find_biggest_end :
    (fuel : ℕ) (h : Heap) (current biggest who : ℕ)
    → 0 < fuel
    → current ≡ 0
    → find_biggest fuel h current biggest who ≡ some (biggest, who)
unfolding find_biggest
find_biggest_end zero h current biggest who f e = absurd (omega arith)
find_biggest_end (suc fuel) h current biggest who f e = rw ((==_iff current 0).1 e) refl

-- With more fuel than there are addresses ahead, the search ends, with the biggest free space.
pub find_biggest-Best :
    (fuel : ℕ) (live : ℕ → Bool) (h : Heap) (current biggest who : ℕ)
    → IsList live h
    → live current ≡ true
    → h.memory_end < fuel + current
    → Best live h (λ a. a < current) (biggest, who)
    → (r : ℕ × ℕ) × (find_biggest fuel h current biggest who ≡ some r) × Best live h (λ a. Unit) r
unfolding find_biggest
find_biggest-Best zero live h current biggest who l e f b =
    absurd (omega (arith, l.room current e, l.bound current e))
find_biggest-Best (suc fuel) live h current biggest who l e f b =
    let better = ltb biggest (free_space h current) in
    let next = (h.entry current).next in
    let biggest' = if better then free_space h current else biggest in
    let who' = if better then current else who in
    let step = Best-step live h current biggest who l e b in
    let start : (current == 0) ≡ false = ground (arith, l.positive, l.lowest current e) in
    rw start (elim (Bool-cases (next == 0)) [
      | inl last ↦ (
        (biggest', who'),
        find_biggest_end fuel h next biggest' who'
            (omega (arith, l.room current e, l.bound current e)) (ground arith),
        record { found = step.found; most = λ a k p. step.most a k (inl (ground arith)) },
      )
      | inr more ↦
          let up = l.next_live current e (ground arith) in
          find_biggest-Best fuel live h next biggest' who' l up.0 (omega (arith, up.1))
            (record { found = step.found; most = λ a k p. step.most a k (inr p) })
    ])
