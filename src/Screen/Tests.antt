-- ===== src/Screen/Tests.antt =====
-- Concrete parts and bitmaps, on which the theorems about drawing are applied.
use blesk_os.Common.{ℕ, ◌+◌, ◌-◌, ◌*◌, ◌^◌, ◌≡◌, ◌&&◌, ltb, if◌then◌else◌, sub32, arith}
use blesk_os.Screen.Draw.{Part, draw_bitmap_in_part, draw_square_in_part}
use blesk_os.Screen.Draw.Lines.{between}
use blesk_os.Screen.Draw.Clip.{IsPlaced}
use blesk_os.Screen.Draw.Bitmap.{shown, draw_bitmap_in_part-shown}
use blesk_os.Screen.Draw.Square.{painted, draw_square_in_part-painted}

abbrev small_part : Part
small_part = record { x = 10; y = 20; width = 30; height = 40 }

abbrev grey : ℕ → ℕ
grey i = 0xFF808080

abbrev black : ℕ → ℕ
black i = 0xFF000000

-- Two columns are to the left of the part.
across-IsPlaced : IsPlaced 30 (2 ^ 32 - 2) 8
across-IsPlaced = record {
  word = omega arith;
  short = omega arith;
  small = omega arith;
  some_limit = omega arith;
  ends = λ positive. omega arith;
}

-- Three lines are below the part.
down-IsPlaced : IsPlaced 40 35 8
down-IsPlaced = record {
  word = omega arith;
  short = omega arith;
  small = omega arith;
  some_limit = omega arith;
  ends = λ positive. omega arith;
}

draw_bitmap_in_part-shown_example :
    draw_bitmap_in_part small_part 100 black (2 ^ 32 - 2) 35 grey 8 8 (57 * 100 + 12)
    ≡ shown small_part (2 ^ 32 - 2) 35 grey 8 8 57 12 0xFF000000
draw_bitmap_in_part-shown_example =
    draw_bitmap_in_part-shown small_part 100 (2 ^ 32 - 2) 35 8 8 57 12 grey black across-IsPlaced
      down-IsPlaced (omega arith) (omega arith) (omega arith) (omega arith)

draw_square_in_part-painted_example :
    draw_square_in_part small_part 100 black (2 ^ 32 - 2) 35 8 8 0x80FFFFFF (57 * 100 + 12) ≡ (
      if (between 20 40 57 && ltb (sub32 37 35) 8)
        && (between 10 30 12 && ltb (sub32 2 (2 ^ 32 - 2)) 8)
      then painted 0x80FFFFFF 0xFF000000
      else 0xFF000000)
draw_square_in_part-painted_example =
    draw_square_in_part-painted small_part 100 (2 ^ 32 - 2) 35 8 8 0x80FFFFFF 57 12 black
      across-IsPlaced down-IsPlaced (omega arith) (omega arith) (omega arith)
