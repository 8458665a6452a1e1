-- ===== src/Libc/Endian.antt =====
-- kernel/libc/string.c: the change of the byte order in a buffer, which is the list of its bytes;
-- `none` is an access behind its end.
use blesk_os.Common.{
  ◌*◌, ◌≤◌, ◌≡◌, refl, [], length, arith, ℕ, zero, suc, ◌/◌, Option, none, some, List, ◌∷◌,
}
use blesk_os.Libc.Text.{after}

-- The rounds of `switch_16_endian`.
unfoldable pub switch_rounds16 : ℕ → List ℕ → Option (List ℕ)
switch_rounds16 zero b = some b
switch_rounds16 (suc n) (b0 ∷ b1 ∷ b) = after (λ r. b1 ∷ b0 ∷ r) (switch_rounds16 n b)
switch_rounds16 (suc n) b = none

-- The loop has one round for each two bytes below `size & ~1`.
unfoldable pub switch_16_endian : List ℕ → ℕ → Option (List ℕ)
switch_16_endian b size = switch_rounds16 (size / 2) b

unfoldable pub switch_rounds32 : ℕ → List ℕ → Option (List ℕ)
switch_rounds32 zero b = some b
switch_rounds32 (suc n) (b0 ∷ b1 ∷ b2 ∷ b3 ∷ b) =
    after (λ r. b3 ∷ b2 ∷ b1 ∷ b0 ∷ r) (switch_rounds32 n b)
switch_rounds32 (suc n) b = none

unfoldable pub switch_32_endian : List ℕ → ℕ → Option (List ℕ)
switch_32_endian b size = switch_rounds32 (size / 4) b

unfoldable pub switch_rounds64 : ℕ → List ℕ → Option (List ℕ)
switch_rounds64 zero b = some b
switch_rounds64 (suc n) (b0 ∷ b1 ∷ b2 ∷ b3 ∷ b4 ∷ b5 ∷ b6 ∷ b7 ∷ b) =
    after (λ r. b7 ∷ b6 ∷ b5 ∷ b4 ∷ b3 ∷ b2 ∷ b1 ∷ b0 ∷ r) (switch_rounds64 n b)
switch_rounds64 (suc n) b = none

unfoldable pub switch_64_endian : List ℕ → ℕ → Option (List ℕ)
switch_64_endian b size = switch_rounds64 (size / 8) b

-- The first `w` bytes in the opposite order, in front of other bytes.
abbrev reverse_front : ℕ → List ℕ → List ℕ → List ℕ
reverse_front zero b rest = rest
reverse_front (suc w) [] rest = rest
reverse_front (suc w) (x ∷ b) rest = reverse_front w b (x ∷ rest)

abbrev drop : ℕ → List ℕ → List ℕ
drop zero b = b
drop (suc n) [] = []
drop (suc n) (x ∷ b) = drop n b

-- The first `n` words of `w` bytes with the bytes of each in the opposite order.
abbrev pub reverse_words : ℕ → ℕ → List ℕ → List ℕ
reverse_words w zero b = b
reverse_words w (suc n) b = reverse_front w b (reverse_words w n (drop w b))

switch_rounds16-words :
    (n : ℕ) (b : List ℕ) → n * 2 ≤ length b → switch_rounds16 n b ≡ some (reverse_words 2 n b)
unfolding switch_rounds16
switch_rounds16-words zero b h = refl
switch_rounds16-words (suc n) [] h = absurd (omega arith)
switch_rounds16-words (suc n) (b0 ∷ []) h = absurd (omega arith)
switch_rounds16-words (suc n) (b0 ∷ b1 ∷ b) h = rw (switch_rounds16-words n b (omega arith)) refl

switch_rounds32-words :
    (n : ℕ) (b : List ℕ) → n * 4 ≤ length b → switch_rounds32 n b ≡ some (reverse_words 4 n b)
unfolding switch_rounds32
switch_rounds32-words zero b h = refl
switch_rounds32-words (suc n) [] h = absurd (omega arith)
switch_rounds32-words (suc n) (b0 ∷ []) h = absurd (omega arith)
switch_rounds32-words (suc n) (b0 ∷ b1 ∷ []) h = absurd (omega arith)
switch_rounds32-words (suc n) (b0 ∷ b1 ∷ b2 ∷ []) h = absurd (omega arith)
switch_rounds32-words (suc n) (b0 ∷ b1 ∷ b2 ∷ b3 ∷ b) h =
    rw (switch_rounds32-words n b (omega arith)) refl

switch_rounds64-words :
    (n : ℕ) (b : List ℕ) → n * 8 ≤ length b → switch_rounds64 n b ≡ some (reverse_words 8 n b)
unfolding switch_rounds64
switch_rounds64-words zero b h = refl
switch_rounds64-words (suc n) [] h = absurd (omega arith)
switch_rounds64-words (suc n) (b0 ∷ []) h = absurd (omega arith)
switch_rounds64-words (suc n) (b0 ∷ b1 ∷ []) h = absurd (omega arith)
switch_rounds64-words (suc n) (b0 ∷ b1 ∷ b2 ∷ []) h = absurd (omega arith)
switch_rounds64-words (suc n) (b0 ∷ b1 ∷ b2 ∷ b3 ∷ []) h = absurd (omega arith)
switch_rounds64-words (suc n) (b0 ∷ b1 ∷ b2 ∷ b3 ∷ b4 ∷ []) h = absurd (omega arith)
switch_rounds64-words (suc n) (b0 ∷ b1 ∷ b2 ∷ b3 ∷ b4 ∷ b5 ∷ []) h = absurd (omega arith)
switch_rounds64-words (suc n) (b0 ∷ b1 ∷ b2 ∷ b3 ∷ b4 ∷ b5 ∷ b6 ∷ []) h = absurd (omega arith)
switch_rounds64-words (suc n) (b0 ∷ b1 ∷ b2 ∷ b3 ∷ b4 ∷ b5 ∷ b6 ∷ b7 ∷ b) h =
    rw (switch_rounds64-words n b (omega arith)) refl

-- On a buffer of `size` bytes at least, each of the three functions reverses the bytes of each whole
-- word of 2, 4 or 8 bytes below `size`, and changes nothing behind these.
switch_endian-words :
    (b : List ℕ) (size : ℕ)
    → size ≤ length b
    → (switch_16_endian b size ≡ some (reverse_words 2 (size / 2) b))
      × (switch_32_endian b size ≡ some (reverse_words 4 (size / 4) b))
      × (switch_64_endian b size ≡ some (reverse_words 8 (size / 8) b))
unfolding switch_16_endian switch_32_endian switch_64_endian
switch_endian-words b size h = (
  switch_rounds16-words (size / 2) b (omega arith),
  switch_rounds32-words (size / 4) b (omega arith),
  switch_rounds64-words (size / 8) b (omega arith),
)
