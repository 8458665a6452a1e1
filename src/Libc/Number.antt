-- ===== src/Libc/Number.antt =====
-- kernel/libc/stdlib.c: numbers as texts. An `int` is the 32-bit number of its bits.
pub mod Decimal
pub mod Hex
use blesk_os.Common.{
  ℕ, zero, suc, ◌+◌, ◌-◌, ◌*◌, ◌/◌, ◌%◌, ◌^◌, Bool, ◌&&◌, ◌||◌, Option, none, some, List, [], ◌∷◌,
  ◌++◌, length, ◌==◌, ltb, leb, if◌then◌else◌, add32, sub32, mul32,
}

-- The loop of `itoa` over the digits, for `n` more characters in the buffer, which is a list here
-- with the last written character first.
unfoldable pub itoa_digits : ℕ → ℕ → List ℕ → List ℕ
itoa_digits zero value buffer = buffer
itoa_digits (suc n) value buffer =
    let rest = itoa_digits n (value / 10) ((value % 10 + b'0') ∷ buffer) in
    if value == 0 then buffer else rest

-- The `n` characters that were written first, the last one of them first.
unfoldable pub written_first : ℕ → List ℕ → List ℕ
written_first n [] = []
written_first n (c ∷ buffer) =
    let rest = written_first n buffer in if leb (length (c ∷ buffer)) n then c ∷ buffer else rest

-- The end of `itoa`: the characters that fit, and the zero. From 2^31 on `(int)size` is negative, and
-- `i` is set to `size - 1`, the largest `int` or a negative one; `none` is the access outside of
-- `buffer` or `str` that follows.
unfoldable pub itoa_store : ℕ → List ℕ → Option (List ℕ)
unfolding written_first
itoa_store size buffer =
    if leb (2 ^ 31) size
    then none
    else if leb size (length buffer)
    then some (written_first (size - 1) buffer ++ (0 ∷ []))
    else some (buffer ++ (0 ∷ []))

-- The bytes that `itoa` writes from `str` on; `none` is the overflow of `-value`, or an access outside
-- of the buffer.
unfoldable pub itoa : ℕ → ℕ → Option (List ℕ)
unfolding itoa_digits itoa_store
itoa value size =
    if size == 0
    then some []
    else if value == 0
    then some (if ltb 1 size then b'0' ∷ 0 ∷ [] else [])
    else if value == 2 ^ 31
    then none
    else if ltb (2 ^ 31) value
    then itoa_store size (b'-' ∷ itoa_digits 19 (sub32 0 value) [])
    else itoa_store size (itoa_digits 19 value [])

-- The last loop of `atoi`, with the wrap-around of the machine; the list is what the pointer points
-- to, `none` a read behind its end.
unfoldable pub atoi_digits : ℕ → List ℕ → Option ℕ
atoi_digits result [] = none
atoi_digits result (c ∷ str) =
    let rest = atoi_digits (add32 (mul32 result 10) (c - b'0')) str in
    if leb b'0' c && leb c b'9' then rest else some result

-- `sign * result`.
abbrev pub negate_result : Option ℕ → Option ℕ
negate_result none = none
negate_result (some r) = some (sub32 0 r)

unfoldable pub atoi_sign : List ℕ → Option ℕ
unfolding atoi_digits
atoi_sign [] = none
atoi_sign (c ∷ str) =
    if c == b'-'
    then negate_result (atoi_digits 0 str)
    else if c == b'+'
    then atoi_digits 0 str
    else atoi_digits 0 (c ∷ str)

unfoldable pub atoi : List ℕ → Option ℕ
unfolding atoi_sign
atoi [] = none
atoi (c ∷ str) =
    let rest = atoi str in
    if (c == b' ') || (c == 9) || (c == 10) then rest else atoi_sign (c ∷ str)

-- `hex_digits[d]`.
abbrev pub hex_digit : ℕ → ℕ
hex_digit d = if ltb d 10 then b'0' + d else b'A' + (d - 10)

-- The first loop of `htoa`, with `n` rounds until `i` is 8, and the loop that turns the digits round.
unfoldable pub htoa_digits : ℕ → ℕ → List ℕ → List ℕ
htoa_digits zero value temp = temp
htoa_digits (suc n) value temp =
    let temp' = hex_digit (value % 16) ∷ temp in
    let rest = htoa_digits n (value / 16) temp' in if value / 16 == 0 then temp' else rest

-- The bytes that `htoa` writes.
unfoldable pub htoa : ℕ → List ℕ
unfolding htoa_digits
htoa value = htoa_digits 8 value [] ++ (0 ∷ [])

-- The loop of `htoan`, for `n` more digits.
unfoldable pub htoan_digits : ℕ → ℕ → (ℕ → ℕ) → ℕ → ℕ
htoan_digits zero value str = str
htoan_digits (suc n) value str =
    htoan_digits n (value / 16) (λ k. if k == 2 + n then hex_digit (value % 16) else str k)

-- `htoan`, on an array from `str` on; `none` is the loop whose count starts at 0 and wraps around.
unfoldable pub htoan : ℕ → (ℕ → ℕ) → ℕ → Option (ℕ → ℕ)
unfolding htoan_digits
htoan value str n =
    let prefixed = λ (k : ℕ).
      if k == 0 then b'0' else if k == 1 then b'x' else if k == 2 + n + 1 then 0 else str k in
    if n == 0 then none else some (htoan_digits n value prefixed)
