-- ===== src/Libc/Text.antt =====
-- kernel/libc/string.c: the functions on texts. A pointer is the list of the bytes from it to the
-- end of its array; `none` is an access behind that end. Two arrays do not overlap.
pub mod Compare
pub mod Copy
pub mod Find
use blesk_os.Common.{
  ℕ, zero, suc, ◌+◌, ◌-◌, ◌^◌, Bool, true, false, not, ◌&&◌, Option, none, some, List, [], ◌∷◌,
  ◌==◌, ltb, if◌then◌else◌, sub32,
}

-- The result of the rest, changed by the rounds before it.
abbrev pub after {ℓ} : {A B : Type ℓ} → (A → B) → Option A → Option B
after f none = none
after f (some x) = some (f x)

unfoldable pub strlen : List ℕ → Option ℕ
strlen [] = none
strlen (c ∷ s) = let rest = after suc (strlen s) in if c == 0 then some 0 else rest

-- The result is an `int`, as the 32-bit number of its bits.
unfoldable pub strcmp : List ℕ → List ℕ → Option ℕ
strcmp [] t = none
strcmp (a ∷ s) [] = none
strcmp (a ∷ s) (b ∷ t) =
    let rest = strcmp s t in if not (a == 0) && (a == b) then rest else some (sub32 a b)

unfoldable pub strncmp : List ℕ → List ℕ → ℕ → Option ℕ
strncmp s t zero = some 0
strncmp [] t (suc n) = none
strncmp (a ∷ s) [] (suc n) = none
strncmp (a ∷ s) (b ∷ t) (suc n) =
    let rest = strncmp s t n in if not (a == 0) && (a == b) then rest else some (sub32 a b)

unfoldable pub memcmp : List ℕ → List ℕ → ℕ → Option ℕ
memcmp s t zero = some 0
memcmp [] t (suc n) = none
memcmp (a ∷ s) [] (suc n) = none
memcmp (a ∷ s) (b ∷ t) (suc n) =
    let rest = memcmp s t n in if not (a == b) then some (sub32 a b) else rest

-- The new bytes of `dest`.
unfoldable pub strcpy : List ℕ → List ℕ → Option (List ℕ)
strcpy dest [] = none
strcpy [] (c ∷ src) = none
strcpy (d ∷ dest) (c ∷ src) =
    let rest = after (λ r. c ∷ r) (strcpy dest src) in if c == 0 then some (c ∷ dest) else rest

unfoldable pub strncpy : List ℕ → List ℕ → ℕ → Option (List ℕ)
strncpy dest src zero = some dest
strncpy dest [] (suc n) = none
strncpy [] (c ∷ src) (suc n) = none
strncpy (d ∷ dest) (c ∷ src) (suc n) =
    let rest = after (λ r. c ∷ r) (strncpy dest src n) in if c == 0 then some (0 ∷ dest) else rest

-- The second loop and the zero behind it write what `strcpy` writes.
unfoldable pub strcat : List ℕ → List ℕ → Option (List ℕ)
unfolding strcpy
strcat [] src = none
strcat (d ∷ dest) src =
    let rest = after (λ r. d ∷ r) (strcat dest src) in
    if d == 0 then strcpy (d ∷ dest) src else rest

-- A `char` as an `int`.
abbrev pub char_to_int : ℕ → ℕ
char_to_int c = if ltb c 128 then c else c + (2 ^ 32 - 256)

-- The distance of the character from the start; `some none` is NULL.
unfoldable pub strchr : List ℕ → ℕ → Option (Option ℕ)
strchr [] c = none
strchr (x ∷ s) c =
    let rest = after (after suc) (strchr s c) in
    if x == 0 then some none else if char_to_int x == c then some (some 0) else rest

-- The inner loop of `strstr`: whether the needle's end is reached.
unfoldable pub needle_here : List ℕ → List ℕ → Option Bool
needle_here [] n = none
needle_here (a ∷ h) [] = none
needle_here (a ∷ h) (b ∷ n) =
    let rest = needle_here h n in
    if not (a == 0) && not (b == 0) && (a == b) then rest else some (b == 0)

-- The outer loop.
unfoldable pub needle_search : List ℕ → List ℕ → Option (Option ℕ)
needle_search [] n = none
needle_search (a ∷ h) n =
    let rest = after (after suc) (needle_search h n) in
    if a == 0 then some none else elim (needle_here (a ∷ h) n) [
      | none ↦ none
      | some hit ↦ if hit then some (some 0) else rest
    ]

unfoldable pub strstr : List ℕ → List ℕ → Option (Option ℕ)
strstr h [] = none
strstr h (b ∷ n) = if b == 0 then some (some 0) else needle_search h (b ∷ n)
