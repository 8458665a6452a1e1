-- ===== src/Screen/Draw/Bitmap.antt =====
-- What the bitmaps show.
use blesk_os.Common.{
  ℕ, ◌+◌, ◌-◌, ◌*◌, ◌^◌, ◌≤◌, ◌<◌, ◌≡◌, refl, ap, sym, ◌∙◌, true, ◌&&◌, ◌==◌, bit_and, ltb,
  if◌then◌else◌, arith, Bool-cases, inl, inr, add32, sub32, mul32,
}
use native.Mathlib.Nat.{le-mul_of_pos_right}
use blesk_os.Screen.Draw.{Part, Span, over, copy_bitmap, draw_bitmap, draw_bitmap_in_part}
use blesk_os.Screen.Draw.Lines.{lines_apart, between, draw_lines-at}
use blesk_os.Screen.Draw.Clip.{IsPlaced, IsClipped, calculate_area_in_part-AreaOutcome}

-- A pixel of the view after a bitmap was drawn at `x` and `y` of a part: the pixel of the bitmap, if it
-- is in the part and in the bitmap and its highest byte is not 0, and otherwise what was there.
abbrev pub shown : Part → ℕ → ℕ → (ℕ → ℕ) → ℕ → ℕ → ℕ → ℕ → ℕ → ℕ
shown part x y picture width height line column old =
    let row = sub32 (line - part.y) y in
    let place = sub32 (column - part.x) x in
    let pixel = picture (row * width + place) in
    if (between part.y part.height line && ltb row height)
      && (between part.x part.width column && ltb place width)
    then (if bit_and pixel 0xFF000000 == 0 then old else pixel)
    else old

-- The same for one direction: in the part and in the bitmap.
pub span-between :
    (limit low extent from : ℕ) (s : Span) (c : ℕ)
    → IsClipped limit low extent s
    → between (s.low + from) s.extent c
      ≡ (between from limit c && ltb (sub32 (c - from) low) extent)
span-between limit low extent from s c p = elim (Bool-cases (between from limit c)) [
  | inl within ↦ rw within (ground (arith, p.exact (c - from) (ground arith)))
  | inr out ↦ rw out (ground (arith, p.inside))
]

span-at :
    (limit low extent from : ℕ) (s : Span) (c : ℕ)
    → IsClipped limit low extent s
    → between (s.low + from) s.extent c ≡ true
    → s.first + (c - (s.low + from)) ≡ sub32 (c - from) low
span-at limit low extent from s c p e = ground (arith, p.at (c - from))

module _ (part : Part) (view_width x y width height line column : ℕ) (picture b : ℕ → ℕ)
    (across : IsPlaced part.width x width) (down : IsPlaced part.height y height)
    (wide : part.x + part.width ≤ view_width) (in_view : column < view_width)
    (small : (part.y + part.height) * view_width < 2 ^ 32) (fits : height * width < 2 ^ 32) where
  copy_bitmap-shown :
      (lines columns : Span)
      → IsClipped part.height y height lines
      → IsClipped part.width x width columns
      → copy_bitmap
          (record { lines = lines; columns = columns })
          (lines.low + part.y)
          (columns.low + part.x)
          view_width
          picture
          width
          b
          (line * view_width + column)
        ≡ shown part x y picture width height line column (b (line * view_width + column))
  unfolding copy_bitmap
  copy_bitmap-shown lines columns l c =
      let top = lines.low + part.y in
      let left = columns.low + part.x in
      let k = line * view_width + column in
      let high = lines_apart top (part.y + part.height) view_width (omega (arith, l.starts)) in
      let dst : add32 (mul32 top view_width) left ≡ top * view_width + left =
        omega (arith, high, small, wide, c.starts) in
      let src = add32 (mul32 lines.first width) columns.first in
      let f : ℕ → ℕ → ℕ → ℕ = λ i j. over (picture (src + i * width + j)) in
      let d =
        draw_lines-at lines.extent columns.extent f view_width top left b line column
          (omega (arith, c.inside, wide)) in_view in
      let rows = span-between part.height y height part.y lines line l in
      let places = span-between part.width x width part.x columns column c in
      rw dst (
        d ∙ elim (Bool-cases (between top lines.extent line)) [
          | inr above ↦ rw (above, sym rows ∙ above) refl
          | inl row ↦ elim (Bool-cases (between left columns.extent column)) [
            | inr beside ↦ rw (row, beside, sym rows ∙ row, sym places ∙ beside) refl
            | inl place ↦
                let i = line - top in
                let j = column - left in
                let row_at = span-at part.height y height part.y lines line l row in
                let place_at = span-at part.width x width part.x columns column c place in
                let deep = lines_apart lines.first height width (ground (arith, row, l.shown)) in
                let whole : src ≡ lines.first * width + columns.first =
                  ground (arith, deep, fits, place, c.shown) in
                let index : src + i * width + j
                    ≡ sub32 (line - part.y) y * width + sub32 (column - part.x) x =
                  rw (whole, sym row_at, sym place_at) (omega arith) in
                rw (row, place, sym rows ∙ row, sym places ∙ place)
                  (ap (λ n. over (picture n) (b k)) index)
          ]
        ])

  -- In a part of a view, whose pixels have indices of 32 bits, a bitmap that does not reach over the end
  -- of the coordinates, with fewer than 2 ^ 32 pixels: each pixel of the view becomes the one of the
  -- bitmap that belongs there, if there is one in the part and it is not transparent, and else stays.
  pub draw_bitmap_in_part-shown :
      draw_bitmap_in_part part view_width b x y picture width height (line * view_width + column)
      ≡ shown part x y picture width height line column (b (line * view_width + column))
  unfolding draw_bitmap_in_part
  draw_bitmap_in_part-shown =
      elim (calculate_area_in_part-AreaOutcome part.width part.height x y width height across
        down) [
          | inl (nothing, inl off) ↦
              rw (draw_bitmap_in_part, nothing) (ground (arith, off (line - part.y)))
          | inl (nothing, inr off) ↦
              rw (draw_bitmap_in_part, nothing) (ground (arith, off (column - part.x)))
          | inr (lines, columns, something, l, c) ↦
              let high =
                lines_apart (lines.low + part.y) (part.y + part.height) view_width
                  (omega (arith, l.starts)) in
              let positive : 0 < view_width = omega (arith, in_view) in
              let tall : part.y + part.height < 2 ^ 32 =
                omega (arith, small, le-mul_of_pos_right (part.y + part.height) positive) in
              let broad : view_width < 2 ^ 32 = omega (
                arith,
                small,
                lines_apart 0 (part.y + part.height) view_width (omega (arith, l.starts)),
              ) in
              let top : add32 lines.low part.y ≡ lines.low + part.y =
                omega (arith, tall, l.starts) in
              let left : add32 columns.low part.x ≡ columns.low + part.x =
                omega (arith, broad, wide, c.starts) in
              rw (draw_bitmap_in_part, something, top, left) (copy_bitmap-shown lines columns l c)
        ]

-- The output as a part.
abbrev pub whole : ℕ → ℕ → Part
whole output_width output_height = record {
  x = 0;
  y = 0;
  width = output_width;
  height = output_height;
}

-- On an output, a bitmap as above shows in the same way, with the whole output as the part.
draw_bitmap-shown :
    (output_width output_height view_width x y width height line column : ℕ) (picture b : ℕ → ℕ)
    → IsPlaced output_width x width
    → IsPlaced output_height y height
    → output_width ≤ view_width
    → column < view_width
    → output_height * view_width < 2 ^ 32
    → height * width < 2 ^ 32
    → draw_bitmap output_width output_height b view_width x y picture width height
        (line * view_width + column)
      ≡ shown
          (whole output_width output_height)
          x
          y
          picture
          width
          height
          line
          column
          (b (line * view_width + column))
unfolding draw_bitmap
draw_bitmap-shown ow oh view_width x y width height line column picture b across down wide in_view
      small fits =
    elim (calculate_area_in_part-AreaOutcome ow oh x y width height across down) [
      | inl (nothing, inl off) ↦ rw (draw_bitmap, nothing) (ground (arith, off line))
      | inl (nothing, inr off) ↦ rw (draw_bitmap, nothing) (ground (arith, off column))
      | inr (lines, columns, something, l, c) ↦
          let r =
            copy_bitmap-shown (whole ow oh) view_width x y width height line column picture b across
              down (omega arith) in_view (omega arith) fits lines columns l c in
          let top : lines.low + 0 ≡ lines.low = omega arith in
          let left : columns.low + 0 ≡ columns.low = omega arith in
          rw (draw_bitmap, something) (rw (top, left) at r)
    ]
