-- ===== src/Libc/Ctype.antt =====
-- kernel/libc/ctype.c: classes of characters. A character is an `int`, as the 32-bit number of its
-- bits; a negative one is above every bound here, so the comparisons come out as in the source.
use blesk_os.Common.{false, ℕ, ◌+◌, ◌-◌, ◌≡◌, Bool, ◌&&◌, ◌||◌, ◌==◌, leb, if◌then◌else◌, arith}

unfoldable pub isalpha : ℕ → Bool
isalpha c = (leb b'A' c && leb c b'Z') || (leb b'a' c && leb c b'z')

unfoldable pub isdigit : ℕ → Bool
isdigit c = leb b'0' c && leb c b'9'

unfoldable pub isalnum : ℕ → Bool
unfolding isalpha isdigit
isalnum c = isalpha c || isdigit c

-- Space, tab, newline, vertical tab, form feed and carriage return.
unfoldable pub isspace : ℕ → Bool
isspace c = (c == 32) || (c == 9) || (c == 10) || (c == 11) || (c == 12) || (c == 13)

unfoldable pub islower : ℕ → Bool
islower c = leb b'a' c && leb c b'z'

unfoldable pub isupper : ℕ → Bool
isupper c = leb b'A' c && leb c b'Z'

unfoldable pub tolower : ℕ → ℕ
unfolding isupper
tolower c = if isupper c then c + (b'a' - b'A') else c

unfoldable pub toupper : ℕ → ℕ
unfolding islower
toupper c = if islower c then c - (b'a' - b'A') else c

-- A change of case undoes an earlier one, leaves a letter a letter, and leaves no letter of the other
-- case.
pub toupper-case :
    (c : ℕ)
    → (toupper (tolower c) ≡ toupper c)
      × (tolower (toupper c) ≡ tolower c)
      × (isalpha (tolower c) ≡ isalpha c)
      × (isupper (tolower c) ≡ false)
      × (islower (toupper c) ≡ false)
unfolding toupper tolower isalpha
toupper-case c = (ground arith, ground arith, ground arith, ground arith, ground arith)
