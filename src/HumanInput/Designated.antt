-- ===== src/HumanInput/Designated.antt =====
-- A C array that is written by designated initialisers: a list of index and value in the order of
-- the source. Elements without an initialiser are 0, and the largest index gives the length.
use blesk_os.Common.{
  ℕ, suc, ◌≤◌, ◌<◌, ◌≡◌, Option, none, some, List, [], ◌∷◌, arith, ltb, ◌==◌, if◌then◌else◌,
}

-- The number of elements.
unfoldable pub size : List (ℕ × ℕ) → ℕ
size [] = 0
size ((i, v) ∷ t) = let n = size t in if ltb i n then n else suc i

-- The element at an index; `d` is what the earlier initialisers say, so the last one wins.
unfoldable pub element : ℕ → List (ℕ × ℕ) → ℕ → ℕ
element d [] i = d
element d ((j, v) ∷ t) i = element (if j == i then v else d) t i

-- The read `t[i]`, `none` outside of the array.
unfoldable pub fetch : List (ℕ × ℕ) → ℕ → Option ℕ
unfolding size element
fetch t i = if ltb i (size t) then some (element 0 t i) else none

-- A read is inside the array exactly when the index is below its length.
pub fetch-some : (t : List (ℕ × ℕ)) (i : ℕ) → i < size t → fetch t i ≡ some (element 0 t i)
unfolding fetch
fetch-some t i h = ground arith

pub fetch-none : (t : List (ℕ × ℕ)) (i : ℕ) → size t ≤ i → fetch t i ≡ none
unfolding fetch
fetch-none t i h = ground arith
