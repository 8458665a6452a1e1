-- ===== src/Screen/Draw/Lines.antt =====
-- What the loops over lines and pixels draw.
use blesk_os.Common.{
  ℕ, zero, suc, ◌+◌, ◌-◌, ◌*◌, ◌≤◌, ◌<◌, ◌≡◌, refl, ◌∙◌, Bool, true, false, ◌&&◌, ◌==◌, ltb, leb,
  if◌then◌else◌, arith, Bool-cases, inl, inr, ltb→lt,
}
use blesk_os.Screen.Draw.{put_pixel, draw_line, draw_lines}

abbrev pub between : ℕ → ℕ → ℕ → Bool
between low extent i = leb low i && ltb i (low + extent)

draw_line-at :
    (n : ℕ) (f : ℕ → ℕ → ℕ) (dst : ℕ) (b : ℕ → ℕ) (k : ℕ)
    → draw_line n f dst b k ≡ (if between dst n k then f (k - dst) (b k) else b k)
unfolding draw_line
draw_line-at zero f dst b k = ground arith
draw_line-at (suc n) f dst b k =
    let rest = draw_line-at n (λ j. f (suc j)) (suc dst) (put_pixel b dst (f 0 (b dst))) k in
    elim (Bool-cases (between (suc dst) n k)) [
      | inl later ↦
          let shift : k - dst ≡ suc (k - suc dst) = ground (arith, later) in
          let same : (k == dst) ≡ false = ground (arith, later) in
          let inside : between dst (suc n) k ≡ true = ground (arith, later) in
          rest ∙ rw (later, inside, same, shift) refl
      | inr now ↦ elim (Bool-cases (k == dst)) [
        | inl here ↦
            let same : k ≡ dst = ground arith in
            let inside : between dst (suc n) k ≡ true = ground arith in
            let base : k - dst ≡ 0 = omega (arith, same) in
            rest ∙ rw (now, here, inside, base, same) refl
        | inr away ↦
            let outside : between dst (suc n) k ≡ false = ground (arith, now) in
            rest ∙ rw (now, away, outside) refl
      ]
    ]

pub lines_apart : (a b w : ℕ) → a < b → a * w + w ≤ b * w
lines_apart a b w lt = grind arith

-- A column of a view is in a line exactly when the line is its own.
line-between :
    (view_width line column top left n : ℕ)
    → left + n ≤ view_width
    → column < view_width
    → between (top * view_width + left) n (line * view_width + column)
      ≡ ((line == top) && between left n column)
line-between view_width line column top left n fits c = elim (Bool-cases (line == top)) [
  | inl same ↦ let e : line ≡ top = ground arith in rw (same, e) (ground arith)
  | inr other ↦ elim (Bool-cases (ltb line top)) [
    | inl lower ↦
        let below : line * view_width + view_width ≤ top * view_width =
          lines_apart line top view_width (ltb→lt _ _ lower) in
        rw other (ground arith)
    | inr upper ↦
        let above : top * view_width + view_width ≤ line * view_width =
          lines_apart top line view_width (ground arith) in
        rw other (ground arith)
  ]
]

-- `m` lines of `n` pixels from the pixel at `top` and `left` on change the pixels of their lines and
-- columns, and no others.
pub draw_lines-at :
    (m n : ℕ) (f : ℕ → ℕ → ℕ → ℕ) (view_width top left : ℕ) (b : ℕ → ℕ) (line column : ℕ)
    → left + n ≤ view_width
    → column < view_width
    → let k = line * view_width + column in
      draw_lines m n f view_width (top * view_width + left) b k ≡ (
        if between top m line && between left n column
        then f (line - top) (column - left) (b k)
        else b k)
unfolding draw_lines
draw_lines-at zero n f view_width top left b line column fits c = ground arith
draw_lines-at (suc m) n f view_width top left b line column fits c =
    let k = line * view_width + column in
    let b1 = draw_line n (f 0) (top * view_width + left) b in
    let next : top * view_width + left + view_width ≡ suc top * view_width + left = omega arith in
    let rest = draw_lines-at m n (λ i. f (suc i)) view_width (suc top) left b1 line column fits c in
    let here = draw_line-at n (f 0) (top * view_width + left) b k in
    let place = line-between view_width line column top left n fits c in
    rw next (
      rest ∙ elim (Bool-cases (line == top)) [
        | inl same ↦
            let e : line ≡ top = ground arith in
            let below : between (suc top) m line ≡ false = ground arith in
            let inside : between top (suc m) line ≡ true = ground arith in
            let base : line - top ≡ 0 = omega (arith, e) in
            let column_at : k - (top * view_width + left) ≡ column - left = rw e (omega arith) in
            rw (below, inside, here, place, same, base, column_at) refl
        | inr other ↦
            let kept : b1 k ≡ b k = here ∙ rw (place, other) refl in
            elim (Bool-cases (between (suc top) m line)) [
              | inl within ↦
                  let inside : between top (suc m) line ≡ true = ground arith in
                  let deep : line - top ≡ suc (line - suc top) = ground arith in
                  rw (within, inside, kept, deep) refl
              | inr out ↦
                  let outside : between top (suc m) line ≡ false = ground arith in
                  rw (out, outside, kept) refl
            ]
      ])
