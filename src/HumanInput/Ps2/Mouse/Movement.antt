-- ===== src/HumanInput/Ps2/Mouse/Movement.antt =====
-- The movements of a mouse packet are the nine-bit numbers of the PS/2 protocol, as 32-bit words.
use blesk_os.Common.{
  ℕ, ◌+◌, ◌-◌, ◌%◌, ◌^◌, ◌<◌, ◌≡◌, refl, bit_and, bit_or, Bool, true, not, ◌&&◌, ◌==◌, arith,
  passes_below, passes_below-at, ==_iff, if◌then◌else◌,
}
use blesk_os.HumanInput.Ps2.Mouse.{high_ones, decode_x, decode_y}

-- A number of nine bits in two's complement, its sign apart, as a 32-bit word.
abbrev pub nine_bits : Bool → ℕ → ℕ
nine_bits sign low = if sign then 2 ^ 32 - 256 + low else low

-- Minus a 32-bit word.
abbrev pub negated : ℕ → ℕ
negated x = (2 ^ 32 - x) % 2 ^ 32

high_table : passes_below (λ x. bit_or x high_ones == high_ones + x) 256 ≡ true
unfolding passes_below
high_table = refl

high : (x : ℕ) → x < 256 → bit_or x high_ones ≡ high_ones + x
high x h = (==_iff _ _).0 (passes_below-at _ 256 x h high_table)

low_table : passes_below (λ x. bit_and (2 ^ 32 - x) 0xFF == (256 - x) % 256) 256 ≡ true
unfolding passes_below
low_table = refl

low : (x : ℕ) → x < 256 → bit_and (2 ^ 32 - x) 0xFF ≡ (256 - x) % 256
low x h = (==_iff _ _).0 (passes_below-at _ 256 x h low_table)

-- For bytes, the horizontal movement is the packet's number.
decode_x-nine : (b0 b1 : ℕ) → b1 < 256 → decode_x b0 b1 ≡ nine_bits (bit_and b0 0x10 == 0x10) b1
unfolding decode_x
decode_x-nine b0 b1 h = ground (arith, high b1 h)

-- For bytes, the vertical movement is minus the packet's number, since the screen counts
-- downwards, but for the number -256, for which it is 0.
pub decode_y-negated :
    (b0 b2 : ℕ)
    → b2 < 256
    → decode_y b0 b2 ≡ (
        if not (bit_and b0 0x20 == 0x00) && (b2 == 0)
        then 0
        else negated (nine_bits (not (bit_and b0 0x20 == 0x00)) b2))
unfolding decode_y
decode_y-negated b0 b2 h = ground (arith, low b2 h, high ((256 - b2) % 256))
