-- ===== src/Memory/Physical/Occurrences.antt =====
-- How often a page stands in a range of an array of pages.
use blesk_os.Common.{ℕ, zero, suc, ◌+◌, ◌-◌, ◌≤◌, ◌<◌, ◌≡◌, ◌≢◌, refl, ◌==◌, arith, as_int}
use blesk_os.Memory.Physical.{write}

-- Among the `n` words from `i` on.
unfoldable pub occurrences : ℕ → (ℕ → ℕ) → ℕ → ℕ → ℕ
occurrences p f i zero = 0
occurrences p f i (suc n) = occurrences p f i n + as_int (f (i + n) == p)

pub occurrences-write_above :
    (p : ℕ) (f : ℕ → ℕ) (i n k v : ℕ)
    → i + n ≤ k
    → occurrences p (write f k v) i n ≡ occurrences p f i n
unfolding occurrences
occurrences-write_above p f i zero k v h = refl
occurrences-write_above p f i (suc n) k v h = ground (arith, occurrences-write_above p f i n k v)

pub occurrences-write_below :
    (p : ℕ) (f : ℕ → ℕ) (i n k v : ℕ)
    → k < i
    → occurrences p (write f k v) i n ≡ occurrences p f i n
unfolding occurrences
occurrences-write_below p f i zero k v h = refl
occurrences-write_below p f i (suc n) k v h = ground (arith, occurrences-write_below p f i n k v)

-- The last word of a range, as the code counts.
pub occurrences-last :
    (p : ℕ) (f : ℕ → ℕ) (i n : ℕ)
    → n ≢ 0
    → occurrences p f i n ≡ occurrences p f i (n - 1) + as_int (f (i + (n - 1)) == p)
unfolding occurrences
occurrences-last p f i zero h = absurd (h refl)
occurrences-last p f i (suc n) h = ground arith

-- A word that is written behind a range.
pub occurrences-snoc :
    (p : ℕ) (f : ℕ → ℕ) (i n k v : ℕ)
    → k ≡ i + n
    → occurrences p (write f k v) i (n + 1) ≡ occurrences p f i n + as_int (v == p)
unfolding occurrences
occurrences-snoc p f i n k v h =
    ground (arith, occurrences-write_above p f i n k v, occurrences-last p (write f k v) i (n + 1))
