-- ===== src/HumanInput/Layout.antt =====
-- kernel/hardware/groups/human_input/keyboard_layout.c: the tables of two layouts, the choice of a
-- layout and the code point of a key.
mod En
mod Sk
unfoldable pub use En.*
unfoldable pub use Sk.*
use blesk_os.Common.{ℕ, Bool, true, false, ◌&&◌, ◌||◌, List, [], ◌∷◌, ◌==◌, get_or, if◌then◌else◌}
use blesk_os.HumanInput.Keys.{key_left_shift, key_right_shift}
use blesk_os.HumanInput.Designated.{element}
use blesk_os.HumanInput.State.{GlobalState, key_pressed, key_released}

-- The two table pointers, and `keyboard_layout`.
pub record Layout : Type 0 where
  pub name : List ℕ
  pub no_shift : List (ℕ × ℕ)
  pub with_shift : List (ℕ × ℕ)

-- The test of `get_key_unicode_value` for the table with shift.
unfoldable pub shifted : GlobalState → Bool
shifted g =
    let left = get_or g.key_state key_left_shift 0 in
    let right = get_or g.key_state key_right_shift 0 in
    (g.leds.capslock == 0 && (left == key_pressed || right == key_pressed))
    || (g.leds.capslock == 1 && (left == key_released && right == key_released))

-- `get_key_unicode_value`. The tables have `INPUT_KEY_COUNT` elements.
unfoldable pub get_key_unicode_value : Layout → GlobalState → ℕ → ℕ
unfolding shifted
get_key_unicode_value l g key = element 0 (if shifted g then l.with_shift else l.no_shift) key

-- `strcmp(layout, s) == 0` on the bytes of two texts.
unfoldable pub same_text : List ℕ → List ℕ → Bool
same_text [] [] = true
same_text [] (_ ∷ _) = false
same_text (_ ∷ _) [] = false
same_text (a ∷ as_) (b ∷ bs) = let rest = same_text as_ bs in if a == b then rest else false

-- `set_keyboard_layout`; a name other than EN and SK changes nothing.
unfoldable pub set_keyboard_layout : List ℕ → Layout → Layout
unfolding same_text
set_keyboard_layout name l =
    if same_text name (b'E' ∷ b'N' ∷ [])
    then record { name = name; no_shift = en_no_shift; with_shift = en_with_shift }
    else if same_text name (b'S' ∷ b'K' ∷ [])
    then record { name = name; no_shift = sk_no_shift; with_shift = sk_with_shift }
    else l
