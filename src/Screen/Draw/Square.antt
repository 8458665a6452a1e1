-- ===== src/Screen/Draw/Square.antt =====
-- What the squares show, and the blending of colours.
use blesk_os.Common.{
  ℕ, ◌+◌, ◌-◌, ◌*◌, ◌/◌, ◌%◌, ◌^◌, ◌≤◌, ◌<◌, ◌≡◌, bit_and, ◌&&◌, ◌==◌, ltb, if◌then◌else◌, arith,
  Bool-cases, inl, inr, add32, sub32, mul32, sym,
}
use native.Mathlib.Nat.{mul-le-mul_right, le-mul_of_pos_right}
use blesk_os.Screen.Draw.{Part, blend_channel, blend, draw_square, draw_square_in_part}
use blesk_os.Screen.Draw.Lines.{between, lines_apart, draw_lines-at}
use blesk_os.Screen.Draw.Clip.{IsPlaced, calculate_area_in_part-AreaOutcome}
use blesk_os.Screen.Draw.Bitmap.{span-between}

mean : (temp : ℕ) → temp ≤ 65025 → (temp + 1 + temp / 2 ^ 8) / 2 ^ 8 % 2 ^ 8 ≡ temp / 255
mean temp small = omega arith

-- For bytes, the blending without a division is the weighted mean, rounded down.
blend_channel-mean :
    (alpha channel old : ℕ)
    → alpha < 256
    → channel < 256
    → old < 256
    → blend_channel alpha channel old ≡ (channel * alpha + old * (255 - alpha)) / 255
blend_channel-mean alpha channel old a c o =
    let over = mul-le-mul_right {m = channel} {n = 255} alpha (omega arith) in
    let under = mul-le-mul_right {m = old} {n = 255} (255 - alpha) (omega arith) in
    mean (channel * alpha + old * (255 - alpha)) (omega (arith, over, under))

-- A pixel of the view in a square of some colour.
abbrev pub painted : ℕ → ℕ → ℕ
painted color old = if bit_and color 0xFF000000 == 0xFF000000 then color else blend color old

-- In an output whose bytes have addresses of 32 bits, `draw_square` paints the pixels of the square
-- and no others.
pub draw_square-painted :
    (output_width x y width height color line column : ℕ) (b : ℕ → ℕ)
    → x + width ≤ output_width
    → column < output_width
    → (y + 1) * output_width < 2 ^ 30
    → draw_square output_width b x y width height color (line * output_width + column) ≡ (
        if between y height line && between x width column
        then painted color (b (line * output_width + column))
        else b (line * output_width + column))
unfolding draw_square
draw_square-painted output_width x y width height color line column b wide in_view small =
    let dst : add32 (mul32 (mul32 y output_width) 4) (mul32 x 4) / 4 ≡ y * output_width + x =
      omega (arith, small, lines_apart y (y + 1) output_width (omega arith), wide) in
    elim (Bool-cases (bit_and color 0xFF000000 == 0xFF000000)) [
      | inl opaque ↦
          rw (opaque, dst)
            (draw_lines-at height width _ output_width y x b line column wide in_view)
      | inr seen ↦
          rw (seen, dst) (draw_lines-at height width _ output_width y x b line column wide in_view)
    ]

-- In a part of an output whose bytes have addresses of 32 bits, a square that does not reach over the
-- end of the coordinates is painted on the pixels that are in the part and in the square, and on no
-- others.
pub draw_square_in_part-painted :
    (part : Part) (output_width x y width height color line column : ℕ) (b : ℕ → ℕ)
    → IsPlaced part.width x width
    → IsPlaced part.height y height
    → part.x + part.width ≤ output_width
    → column < output_width
    → (part.y + part.height) * output_width < 2 ^ 30
    → draw_square_in_part part output_width b x y width height color (line * output_width + column)
      ≡ (if (between part.y part.height line && ltb (sub32 (line - part.y) y) height)
            && (between part.x part.width column && ltb (sub32 (column - part.x) x) width)
          then painted color (b (line * output_width + column))
          else b (line * output_width + column))
unfolding draw_square_in_part
draw_square_in_part-painted part output_width x y width height color line column b across down wide
      in_view small =
    elim (calculate_area_in_part-AreaOutcome part.width part.height x y width height across down) [
      | inl (nothing, inl off) ↦
          rw (draw_square_in_part, nothing) (ground (arith, off (line - part.y)))
      | inl (nothing, inr off) ↦
          rw (draw_square_in_part, nothing) (ground (arith, off (column - part.x)))
      | inr (lines, columns, something, l, c) ↦
          let positive : 0 < output_width = omega (arith, in_view) in
          let tall = le-mul_of_pos_right (part.y + part.height) positive in
          let broad = lines_apart 0 (part.y + part.height) output_width (omega (arith, l.starts)) in
          let high =
            mul-le-mul_right {m = lines.low + part.y + 1} {n = part.y + part.height} output_width
              (omega (arith, l.starts)) in
          let top : add32 part.y lines.low ≡ lines.low + part.y =
            omega (arith, tall, small, l.starts) in
          let left : add32 part.x columns.low ≡ columns.low + part.x =
            omega (arith, broad, small, wide, c.starts) in
          let rows = span-between part.height y height part.y lines line l in
          let places = span-between part.width x width part.x columns column c in
          rw (draw_square_in_part, something, top, left, sym rows, sym places)
            (draw_square-painted output_width (columns.low + part.x) (lines.low + part.y)
              columns.extent lines.extent color line column b (omega (arith, c.inside, wide))
              in_view (omega (arith, high, small)))
    ]
