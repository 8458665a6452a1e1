-- ===== src/Common/Masks.antt =====
-- `&` with a mask of the lowest bits is a remainder.
use Prim.Native.Nat.{
  ℕ, zero, suc, ◌+◌, ◌-◌, ◌*◌, ◌/◌, ◌%◌, ◌^◌, ◌≤◌, ◌<◌, min, digits, bit_and, bit_and-bitwise,
}
use mathlib.Core.Path.{◌≡◌, ap, sym, ◌∙◌}
use native.Mathlib.Omega.{arith}
use native.Mathlib.Nat.{
  pow-suc, one-le-pow, div-add-mod, mul-add-mod_self_left, mod-eq_of_lt, mod-lt, add-mod_right,
  mul-mod_right,
}

-- One more digit, and the remainder by twice the power.
remainder_step : (p x : ℕ) → 0 < p → x % (2 * p) ≡ x / 2 % p * 2 + x % 2
remainder_step p x some_bits =
    let q = x / 2 / p in
    let r = x / 2 % p * 2 + x % 2 in
    let whole : 2 * p * q + r ≡ x = omega (arith, div-add-mod (x / 2) p) in
    let below : x / 2 % p < p = omega arith in
    ap (λ y. y % (2 * p)) (sym whole)
    ∙ mul-add-mod_self_left (2 * p) q r
    ∙ mod-eq_of_lt (omega (arith, below))

-- The recursion of `bit_and` with enough digits to go.
low_digits : (n k a : ℕ) → a ≤ n → digits (λ b. zero) min n a (2 ^ k - 1) ≡ a % 2 ^ k
low_digits zero k zero l = ground arith
low_digits zero k (suc a) l = absurd (omega arith)
low_digits (suc n) k zero l = ground arith
low_digits (suc n) zero (suc a) l = ground (arith, low_digits n zero (suc a / 2) (omega arith))
low_digits (suc n) (suc k) (suc a) l = ground (
  arith,
  low_digits n k (suc a / 2) (omega arith),
  pow-suc 2 k,
  one-le-pow k 2,
  remainder_step (2 ^ k) (suc a),
)

pub bit_and_mask : (k a : ℕ) → bit_and a (2 ^ k - 1) ≡ a % 2 ^ k
bit_and_mask k a = simp bit_and-bitwise (low_digits a k a (omega arith))

-- From a number up by what it lacks there is a multiple.
pub next_multiple : (d x : ℕ) → 0 < d → (x + (d - x % d)) % d ≡ 0
next_multiple d x positive =
    let up : x + (d - x % d) ≡ d * (x / d) + d =
      ground (arith, div-add-mod x d, mod-lt x positive) in
    ap (λ y. y % d) up ∙ add-mod_right (d * (x / d)) d ∙ mul-mod_right d (x / d)

-- A multiple of a multiple of four.
pub four_divides : (p x : ℕ) → x % (4 * p) ≡ 0 → x % 4 ≡ 0
four_divides p x e =
    let whole : 4 * (p * (x / (4 * p))) ≡ x = omega (arith, div-add-mod x (4 * p), e) in
    omega (arith, whole)
