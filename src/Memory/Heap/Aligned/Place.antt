-- ===== src/Memory/Heap/Aligned/Place.antt =====
-- The place in a free space for bytes at an aligned address: the lowest one there is.
use blesk_os.Common.{
  ℕ, zero, suc, ◌+◌, ◌-◌, ◌*◌, ◌/◌, ◌%◌, ◌^◌, ◌≤◌, ◌<◌, ◌≡◌, refl, sym, ◌∙◌, Bool, true, false,
  ◌&&◌, ◌==◌, ltb, leb, if◌then◌else◌, arith, add32, sub32, bit_and_mask, next_multiple, Bool-cases,
  inl, inr, ltb→ge, ltb→lt, leb→le,
}
use native.Mathlib.Nat.{add-mod_right, mul-mod_right, div-add-mod, one-le-pow}
use blesk_os.Memory.Heap.{node_size}
use blesk_os.Memory.Heap.Aligned.{until_alignment, skip_crossings, aligned_place}

-- Between two multiples of a number there is at least that number.
multiple_step : (d s p : ℕ) → s % d ≡ 0 → p % d ≡ 0 → s < p → s + d ≤ p
multiple_step d s p u v lt = grind arith

-- What a search from `target` on in a space that ends at `top` has come to.
pub record Placed (d target top : ℕ) (r : Bool × ℕ × ℕ) : Type 0 where
  pub sum : r.0 ≡ true → r.1 + r.2 ≡ top
  pub aligned : r.0 ≡ true → r.1 % d ≡ 0
  pub beyond : r.0 ≡ true → target ≤ r.1
  pub least : r.0 ≡ true → (p : ℕ) → p % d ≡ 0 → target ≤ p → r.1 ≤ p
  pub short : r.0 ≡ false → (p : ℕ) → p % d ≡ 0 → target ≤ p → top < p

skip_crossings-Placed :
    (fuel d metadata start space : ℕ)
    → 0 < d
    → metadata ≤ fuel
    → 0 < metadata
    → start % d ≡ 0
    → start + space < 2 ^ 32
    → Placed d (start + metadata) (start + space) (skip_crossings fuel d metadata start space)
unfolding skip_crossings
skip_crossings-Placed zero d metadata start space w f m u small = absurd (omega arith)
skip_crossings-Placed (suc fuel) d metadata start space w f m u small =
    elim (Bool-cases (ltb space d)) [
      | inl ends ↦ rw ends (record {
        sum = λ t. absurd (ground (arith, t));
        aligned = λ t. absurd (ground (arith, t));
        beyond = λ t. absurd (ground (arith, t));
        least = λ t. absurd (ground (arith, t));
        short = λ _ p e over.
            let up = multiple_step d start p u e (omega arith) in
            omega (arith, up, ltb→lt _ _ ends);
      })
      | inr goes ↦
          let fits = ltb→ge _ _ goes in
          let next : add32 start d ≡ start + d = omega arith in
          let even : (start + d) % d ≡ 0 = add-mod_right start d ∙ u in
          elim (Bool-cases (ltb d metadata)) [
            | inl more ↦
                let deep = ltb→lt _ _ more in
                let r =
                  skip_crossings-Placed fuel d (metadata - d) (start + d) (space - d) w
                    (omega arith) (omega arith) even (omega arith) in
                let same : start + d + (metadata - d) ≡ start + metadata = omega arith in
                let whole : start + d + (space - d) ≡ start + space = omega arith in
                rw (goes, more, next, sym same, sym whole) r
            | inr last ↦
                let near = ltb→ge _ _ last in
                rw (goes, last, next)
                  (record {
                    sum = λ t. omega arith;
                    aligned = λ t. even;
                    beyond = λ t. omega arith;
                    least = λ t p e over. multiple_step d start p u e (omega arith);
                    short = λ t. absurd (ground (arith, t));
                  })
          ]
    ]

-- The first crossing of the alignment.
module _ (k start : ℕ) where
  until_remainder :
      until_alignment (2 ^ k) start ≡ (if start % 2 ^ k == 0 then 0 else 2 ^ k - start % 2 ^ k)
  until_remainder = rw (bit_and_mask k start) refl

  until_aligned : (start + until_alignment (2 ^ k) start) % 2 ^ k ≡ 0
  until_aligned = rw until_remainder (elim (Bool-cases (start % 2 ^ k == 0)) [
    | inl even ↦ rw even (ground arith)
    | inr odd ↦ rw odd (next_multiple (2 ^ k) start (one-le-pow k 2 (omega arith)))
  ])

  until_least : (p : ℕ) → p % 2 ^ k ≡ 0 → start ≤ p → start + until_alignment (2 ^ k) start ≤ p
  until_least p e over = rw until_remainder (elim (Bool-cases (start % 2 ^ k == 0)) [
    | inl even ↦ rw even (omega arith)
    | inr odd ↦
        let d = 2 ^ k in
        let low : start ≡ d * (start / d) + start % d = sym (div-add-mod start d) in
        let up =
          multiple_step d (d * (start / d)) p (mul-mod_right d (start / d)) e (ground arith) in
        rw odd (ground (arith, low, up))
  ])

-- The bytes at a place and their entry fit, or no aligned address is right for them.
abbrev pub Decided : ℕ → ℕ → ℕ → ℕ → Bool → ℕ → ℕ → Type 0
Decided d size target top found start left =
    (found ≡ true
      → (start % d ≡ 0) × (target ≤ start) × (start + size ≤ top) × (start + left ≡ top))
    × (found ≡ false → (p : ℕ) → p % d ≡ 0 → target ≤ p → top < p + size)

Placed-Decided :
    (d size target top : ℕ) (r : Bool × ℕ × ℕ)
    → Placed d target top r
    → Decided d size target top (r.0 && leb size r.2) r.1 r.2
Placed-Decided d size target top (true, start, left) f = (
  λ t. (f.aligned refl, f.beyond refl, ground (arith, t, f.sum refl), f.sum refl),
  λ t p e over. ground (arith, t, f.sum refl, f.least refl p e over),
)
Placed-Decided d size target top (false, start, left) f =
    (λ t. absurd (ground (arith, t)), λ t p e over. omega (arith, f.short refl p e over))

-- The place that is found is the lowest one that leaves space for an entry below it and `size` bytes
-- behind it, and it is found if there is one.
pub aligned_place-Decided :
    (k size start space : ℕ)
    → 4 ≤ 2 ^ k
    → start + space < 2 ^ 32
    → let r = aligned_place (2 ^ k) size start space in
      Decided (2 ^ k) size (start + node_size) (start + space) r.0 r.1 r.2
unfolding aligned_place
aligned_place-Decided k size start space w small =
    let d = 2 ^ k in
    let until = until_alignment d start in
    elim (Bool-cases (leb until space)) [
      | inr off ↦ rw off (
        λ t. absurd (ground (arith, t)),
        λ t p e over. ground (arith, until_least k start p e (omega arith)),
      )
      | inl on ↦
          let fits = leb→le _ _ on in
          let crossing : add32 start until ≡ start + until = omega (arith, fits) in
          let left : sub32 space until ≡ space - until = omega (arith, fits) in
          rw (on, crossing, left)
            (Placed-Decided d size (start + node_size) (start + space) _
              (elim (Bool-cases (ltb until node_size)) [
                | inl below ↦
                    let near = ltb→lt _ _ below in
                    let target : start + until + (node_size - until) ≡ start + node_size =
                      omega (arith, near) in
                    let top : start + until + (space - until) ≡ start + space =
                      omega (arith, fits) in
                    let r =
                      skip_crossings-Placed node_size d (node_size - until) (start + until)
                        (space - until) (omega (arith, w)) (omega arith) (omega (arith, near))
                        (until_aligned k start) (omega (arith, fits, small)) in
                    rw below (rw (target, top) at r)
                | inr above ↦
                    let far = ltb→ge _ _ above in
                    rw above (record {
                      sum = λ t. omega (arith, fits);
                      aligned = λ t. until_aligned k start;
                      beyond = λ t. omega (arith, far);
                      least = λ t p e over. until_least k start p e (omega (arith, over));
                      short = λ t. absurd (ground (arith, t));
                    })
              ]))
    ]
