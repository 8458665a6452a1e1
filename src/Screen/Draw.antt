-- ===== src/Screen/Draw.antt =====
-- Drawing into a view: kernel/hardware/subsystems/screen/draw.c. An `int` is a 32-bit word whose order
-- is signed. A buffer of pixels is a function of their indices, each pixel a word.
pub mod Clip
pub mod Lines
pub mod Bitmap
pub mod Square
use blesk_os.Common.{
  ℕ, zero, suc, ◌+◌, ◌-◌, ◌*◌, ◌/◌, ◌%◌, ◌^◌, bit_and, Bool, not, Option, none, some, ◌==◌, ltb,
  if◌then◌else◌, add32, sub32, mul32,
}

-- `<` of `int`.
abbrev pub signed_ltb : ℕ → ℕ → Bool
signed_ltb a b = ltb (add32 a (2 ^ 31)) (add32 b (2 ^ 31))

-- One direction of a `calculated_area_t`: top, bottom, first_line, last_line and height, or left, right,
-- first_column, last_column and width.
pub record Span : Type 0 where
  pub low : ℕ
  pub high : ℕ
  pub first : ℕ
  pub last : ℕ
  pub extent : ℕ

-- One direction of `calculate_area_in_part`; `none` leaves the area not drawable.
unfoldable pub clip : ℕ → ℕ → ℕ → Option Span
clip limit low extent =
    let high = add32 low extent in
    let first = if signed_ltb low 0 then mul32 low (2 ^ 32 - 1) else 0 in
    let last = if signed_ltb high limit then extent else sub32 extent (sub32 high limit) in
    if not (signed_ltb low limit)
    then none
    else if not (signed_ltb 0 high)
    then none
    else some (record {
      low = if signed_ltb low 0 then 0 else low;
      high = if signed_ltb high limit then high else limit;
      first = first;
      last = last;
      extent = sub32 last first;
    })

-- `screen_part_t`, with what drawing reads of it.
pub record Part : Type 0 where
  pub x : ℕ
  pub y : ℕ
  pub width : ℕ
  pub height : ℕ

-- `calculated_area_t`: the lines and the columns.
pub record Area : Type 0 where
  pub lines : Span
  pub columns : Span

-- `calculate_area_in_part`; `none` is an area that is not drawable.
unfoldable pub calculate_area_in_part : ℕ → ℕ → ℕ → ℕ → ℕ → ℕ → Option Area
calculate_area_in_part part_width part_height x y width height = elim (clip part_height y height) [
  | none ↦ none
  | some lines ↦ elim (clip part_width x width) [
    | none ↦ none
    | some columns ↦ some (record { lines = lines; columns = columns })
  ]
]

abbrev pub put_pixel : (ℕ → ℕ) → ℕ → ℕ → ℕ → ℕ
put_pixel b at pixel i = if i == at then pixel else b i

-- The loop over the pixels of a line: the pixel in column `j` becomes `f j` of what it was.
unfoldable pub draw_line : ℕ → (ℕ → ℕ → ℕ) → ℕ → (ℕ → ℕ) → ℕ → ℕ
draw_line zero f dst b = b
draw_line (suc n) f dst b = draw_line n (λ j. f (suc j)) (suc dst) (put_pixel b dst (f 0 (b dst)))

-- The loop over the lines, which are `view_width` pixels apart.
unfoldable pub draw_lines : ℕ → ℕ → (ℕ → ℕ → ℕ → ℕ) → ℕ → ℕ → (ℕ → ℕ) → ℕ → ℕ
draw_lines zero n f view_width dst b = b
draw_lines (suc m) n f view_width dst b =
    draw_lines m n (λ i. f (suc i)) view_width (dst + view_width) (draw_line n (f 0) dst b)

-- A pixel of a bitmap over a pixel of the view: a transparent one leaves it.
abbrev pub over : ℕ → ℕ → ℕ
over pixel old = if bit_and pixel 0xFF000000 == 0 then old else pixel

-- The lines of a bitmap that are shown, from the pixel of the view at `top` and `left` on.
unfoldable pub copy_bitmap : Area → ℕ → ℕ → ℕ → (ℕ → ℕ) → ℕ → (ℕ → ℕ) → ℕ → ℕ
copy_bitmap area top left view_width picture width b =
    let dst = add32 (mul32 top view_width) left in
    let src = add32 (mul32 area.lines.first width) area.columns.first in
    draw_lines area.lines.extent area.columns.extent (λ i j. over (picture (src + i * width + j)))
      view_width dst b

-- `draw_bitmap`, on an output of the given width and height.
unfoldable pub draw_bitmap : ℕ → ℕ → (ℕ → ℕ) → ℕ → ℕ → ℕ → (ℕ → ℕ) → ℕ → ℕ → ℕ → ℕ
draw_bitmap output_width output_height b view_width x y picture width height =
    elim (calculate_area_in_part output_width output_height x y width height) [
      | none ↦ b
      | some area ↦ copy_bitmap area area.lines.low area.columns.low view_width picture width b
    ]

-- `draw_bitmap_in_part`, on a view of the given width.
unfoldable pub draw_bitmap_in_part : Part → ℕ → (ℕ → ℕ) → ℕ → ℕ → (ℕ → ℕ) → ℕ → ℕ → ℕ → ℕ
draw_bitmap_in_part part view_width b x y picture width height =
    elim (calculate_area_in_part part.width part.height x y width height) [
      | none ↦ b
      | some area ↦
          copy_bitmap area (add32 area.lines.low part.y) (add32 area.columns.low part.x) view_width
            picture width b
    ]

-- A channel of a colour over the same channel of a pixel.
abbrev pub blend_channel : ℕ → ℕ → ℕ → ℕ
blend_channel alpha channel old =
    let temp = channel * alpha + old * (255 - alpha) in (temp + 1 + temp / 2 ^ 8) / 2 ^ 8 % 2 ^ 8

-- A colour that is not opaque over a pixel; the pixel keeps its highest byte.
unfoldable pub blend : ℕ → ℕ → ℕ
blend color old =
    let alpha = color / 2 ^ 24 % 2 ^ 8 in
    let blue = blend_channel alpha (color % 2 ^ 8) (old % 2 ^ 8) in
    let green = blend_channel alpha (color / 2 ^ 8 % 2 ^ 8) (old / 2 ^ 8 % 2 ^ 8) in
    let red = blend_channel alpha (color / 2 ^ 16 % 2 ^ 8) (old / 2 ^ 16 % 2 ^ 8) in
    old / 2 ^ 24 * 2 ^ 24 + red * 2 ^ 16 + green * 2 ^ 8 + blue

-- `draw_square`, on an output of the given width.
unfoldable pub draw_square : ℕ → (ℕ → ℕ) → ℕ → ℕ → ℕ → ℕ → ℕ → ℕ → ℕ
draw_square output_width b x y width height color =
    let dst = add32 (mul32 (mul32 y output_width) 4) (mul32 x 4) / 4 in
    if bit_and color 0xFF000000 == 0xFF000000
    then draw_lines height width (λ i j old. color) output_width dst b
    else draw_lines height width (λ i j. blend color) output_width dst b

-- `draw_square_in_part`.
unfoldable pub draw_square_in_part : Part → ℕ → (ℕ → ℕ) → ℕ → ℕ → ℕ → ℕ → ℕ → ℕ → ℕ
draw_square_in_part part output_width b x y width height color =
    elim (calculate_area_in_part part.width part.height x y width height) [
      | none ↦ b
      | some area ↦
          draw_square output_width b (add32 part.x area.columns.low) (add32 part.y area.lines.low)
            area.columns.extent area.lines.extent color
    ]
