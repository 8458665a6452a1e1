-- ===== src/Screen/Draw/Clip.antt =====
-- The clipping of an area: which lines or columns are in it, of those that are wanted.
use blesk_os.Common.{
  ℕ, ◌+◌, ◌-◌, ◌^◌, ◌≤◌, ◌<◌, ◌≡◌, refl, ◌⊎◌, true, false, none, some, ltb, if◌then◌else◌, arith,
  Bool-cases, inl, inr, add32, sub32, mul32,
}
use blesk_os.Screen.Draw.{Span, clip, signed_ltb, calculate_area_in_part}
use blesk_os.Screen.Draw.Lines.{between}

-- The lowest coordinate of an area: a word that, if it is not negative, does not overflow with the
-- extent.
pub record IsPlaced (limit low extent : ℕ) : Type 0 where
  pub word : low < 2 ^ 32
  pub short : extent < 2 ^ 31
  pub small : limit < 2 ^ 31
  pub some_limit : 0 < limit
  pub ends : low < 2 ^ 31 → low + extent < 2 ^ 31

-- What of the extent is shown: the coordinates below the limit that are in it, each with its number
-- from the lowest coordinate on.
pub record IsClipped (limit low extent : ℕ) (s : Span) : Type 0 where
  pub starts : s.low < limit
  pub inside : s.low + s.extent ≤ limit
  pub shown : s.first + s.extent ≤ extent
  pub exact : (c : ℕ) → c < limit → between s.low s.extent c ≡ ltb (sub32 c low) extent
  pub at : (c : ℕ) → between s.low s.extent c ≡ true → s.first + (c - s.low) ≡ sub32 c low

-- The area when it is drawable.
abbrev clipped : ℕ → ℕ → ℕ → Span
clipped limit low extent =
    let high = add32 low extent in
    let first = if signed_ltb low 0 then mul32 low (2 ^ 32 - 1) else 0 in
    let last = if signed_ltb high limit then extent else sub32 extent (sub32 high limit) in
    record {
      low = if signed_ltb low 0 then 0 else low;
      high = if signed_ltb high limit then high else limit;
      first = first;
      last = last;
      extent = sub32 last first;
    }

abbrev pub Clipped : ℕ → ℕ → ℕ → Type 0
Clipped limit low extent =
    ((clip limit low extent ≡ none) × ((c : ℕ) → c < limit → ltb (sub32 c low) extent ≡ false))
    ⊎ ((s : Span) × (clip limit low extent ≡ some s) × IsClipped limit low extent s)

-- A direction of an area is not drawable exactly when none of its coordinates is in sight, and else
-- it has exactly those that are.
pub clip-Clipped : (limit low extent : ℕ) → IsPlaced limit low extent → Clipped limit low extent
unfolding clip
clip-Clipped limit low extent p =
    let high = add32 low extent in
    elim (Bool-cases (signed_ltb low limit)) [
      | inr beyond ↦
          inl
            (rw beyond refl, λ c lt. ground (arith, p.word, p.short, p.small, p.some_limit, p.ends))
      | inl near ↦ elim (Bool-cases (signed_ltb 0 high)) [
        | inr before ↦ inl (
          rw (near, before) refl,
          λ c lt. ground (arith, p.word, p.short, p.small, p.some_limit, p.ends),
        )
        | inl seen ↦ inr (
          clipped limit low extent,
          rw (near, seen) refl,
          record {
            starts = ground (arith, p.word, p.short, p.small, p.some_limit, p.ends);
            inside = ground (arith, p.word, p.short, p.small, p.some_limit, p.ends);
            shown = ground (arith, p.word, p.short, p.small, p.some_limit, p.ends);
            exact = λ c lt. ground (arith, p.word, p.short, p.small, p.some_limit, p.ends);
            at = λ c e. ground (arith, p.word, p.short, p.small, p.some_limit, p.ends);
          },
        )
      ]
    ]

-- What an area comes to: lines and columns as above, or no line or no column in sight.
abbrev pub AreaOutcome : ℕ → ℕ → ℕ → ℕ → ℕ → ℕ → Type 0
AreaOutcome part_width part_height x y width height =
    ((calculate_area_in_part part_width part_height x y width height ≡ none)
      × (((line : ℕ) → line < part_height → ltb (sub32 line y) height ≡ false)
          ⊎ ((column : ℕ) → column < part_width → ltb (sub32 column x) width ≡ false)))
    ⊎ ((lines : Span) × (columns : Span) × (calculate_area_in_part part_width part_height x y width
            height
          ≡ some (record { lines = lines; columns = columns }))
        × IsClipped part_height y height lines
        × IsClipped part_width x width columns)

pub calculate_area_in_part-AreaOutcome :
    (part_width part_height x y width height : ℕ)
    → IsPlaced part_width x width
    → IsPlaced part_height y height
    → AreaOutcome part_width part_height x y width height
unfolding calculate_area_in_part
calculate_area_in_part-AreaOutcome part_width part_height x y width height across down =
    elim (clip-Clipped part_height y height down) [
      | inl (none_down, off) ↦ inl (rw (calculate_area_in_part, none_down) refl, inl off)
      | inr (lines, some_down, l) ↦ elim (clip-Clipped part_width x width across) [
        | inl (none_across, off) ↦
            inl (rw (calculate_area_in_part, some_down, none_across) refl, inr off)
        | inr (columns, some_across, c) ↦
            inr (lines, columns, rw (calculate_area_in_part, some_down, some_across) refl, l, c)
      ]
    ]
