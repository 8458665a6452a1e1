-- ===== src/Memory/Heap/Aligned/First.antt =====
-- The search of `aligned_kalloc` through the entries.
use blesk_os.Common.{
  ==_iff, ℕ, zero, suc, ◌+◌, ◌<◌, ◌≡◌, refl, ◌⊎◌, inl, inr, Bool, true, false, some, ◌==◌, arith,
  Bool-cases,
}
use blesk_os.Memory.Heap.{Heap, free_space}
use blesk_os.Memory.Heap.Valid.{IsList}
use blesk_os.Memory.Heap.Search.{passed_next, PassedBy}
use blesk_os.Memory.Heap.Aligned.{aligned_place, find_place}

-- The place in the space behind an entry.
abbrev pub place_at : ℕ → ℕ → Heap → ℕ → Bool × ℕ × ℕ
place_at alignment size h a = aligned_place alignment size (h.entry a).end (free_space h a)

-- What the search comes to: the place behind an entry, or none behind any of them.
abbrev pub FirstPlace : (ℕ → Bool) → ℕ → ℕ → ℕ → Heap → ℕ → Type 0
FirstPlace live fuel alignment size h current =
    ((who : ℕ) × (find_place fuel alignment size h current
        ≡ some (true, who, (place_at alignment size h who).1))
      × (live who ≡ true)
      × ((place_at alignment size h who).0 ≡ true))
    ⊎ ((find_place fuel alignment size h current ≡ some (false, 0, 0))
        × ((a : ℕ) → live a ≡ true → (place_at alignment size h a).0 ≡ false))

find_place_end :
    (fuel alignment size : ℕ) (h : Heap) (current : ℕ)
    → 0 < fuel
    → current ≡ 0
    → find_place fuel alignment size h current ≡ some (false, 0, 0)
unfolding find_place
find_place_end zero alignment size h current f e = absurd (omega arith)
find_place_end (suc fuel) alignment size h current f e = rw ((==_iff current 0).1 e) refl

pub find_place-FirstPlace :
    (fuel : ℕ) (live : ℕ → Bool) (alignment size : ℕ) (h : Heap) (current : ℕ)
    → IsList live h
    → live current ≡ true
    → h.memory_end < fuel + current
    → ((a : ℕ) → live a ≡ true → a < current → (place_at alignment size h a).0 ≡ false)
    → FirstPlace live fuel alignment size h current
unfolding find_place
find_place-FirstPlace zero live alignment size h current l e f p =
    absurd (omega (arith, l.room current e, l.bound current e))
find_place-FirstPlace (suc fuel) live alignment size h current l e f p =
    let next = (h.entry current).next in
    let start : (current == 0) ≡ false = ground (arith, l.positive, l.lowest current e) in
    rw start (elim (Bool-cases (place_at alignment size h current).0) [
      | inl here ↦ inl (current, rw here refl, e, here)
      | inr full ↦
          let passed : (a : ℕ)
              → live a ≡ true
              → PassedBy next a
              → (place_at alignment size h a).0 ≡ false =
            λ a k q. elim (passed_next live h current a l e k q) [
              | inl lower ↦ p a k lower
              | inr same ↦ rw same full
            ] in
          rw full (elim (Bool-cases (next == 0)) [
            | inl last ↦ inr (
              find_place_end fuel alignment size h next
                  (omega (arith, l.room current e, l.bound current e)) (ground arith),
              λ a k. passed a k (inl (ground arith)),
            )
            | inr more ↦
                let up = l.next_live current e (ground arith) in
                find_place-FirstPlace fuel live alignment size h next l up.0 (omega (arith, up.1))
                  (λ a k lt. passed a k (inr lt))
          ])
    ])
