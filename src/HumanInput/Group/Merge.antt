-- ===== src/HumanInput/Group/Merge.antt =====
-- What the merge loops of `hid_process_changes_of_local_state` compute: an input is on in the
-- merged array when it is on at some device.
use blesk_os.Common.{
  ℕ, zero, suc, ◌+◌, ◌<◌, ◌≡◌, refl, sym, ap, ◌∙◌, bit_or, Bool, false, ◌||◌, List, [], ◌∷◌, ◌==◌,
  get_or, length, as_int, arith, length-replicate, replicate,
}
use blesk_os.HumanInput.Keys.{input_key_count}
use blesk_os.HumanInput.State.{DeviceState, input_buttons_count}
use blesk_os.HumanInput.Group.{Hid, or_into, merge, actual_keys, actual_buttons}

-- Some of the `n` devices from slot `i` on has the value 1 at `j`.
unfoldable pub any_on : (DeviceState → List ℕ) → Hid → ℕ → ℕ → ℕ → Bool
any_on field w zero i j = false
any_on field w (suc n) i j =
    (get_or (field (w.state_of (w.slots i).device)) j 0 == 1) || any_on field w n (i + 1) j

-- The arrays of a device's state have their length and hold 0 and 1 only.
pub record IsDeviceState (s : DeviceState) : Type 0 where
  pub keys : length s.key_state ≡ input_key_count
  pub keys_bits : (j : ℕ) → get_or s.key_state j 0 < 2
  pub buttons : length s.button_state ≡ input_buttons_count
  pub buttons_bits : (j : ℕ) → get_or s.button_state j 0 < 2

pub length-or_into : (a b : List ℕ) → length (or_into a b) ≡ length a
unfolding or_into
length-or_into [] b = refl
length-or_into (x ∷ a) [] = refl
length-or_into (x ∷ a) (y ∷ b) = ap suc (length-or_into a b)

get_or-or_into :
    (a b : List ℕ) (j : ℕ)
    → length a ≡ length b
    → get_or (or_into a b) j 0 ≡ bit_or (get_or a j 0) (get_or b j 0)
unfolding or_into
get_or-or_into [] [] j h = refl
get_or-or_into [] (y ∷ b) j h = absurd (omega arith)
get_or-or_into (x ∷ a) [] j h = absurd (omega arith)
get_or-or_into (x ∷ a) (y ∷ b) zero h = refl
get_or-or_into (x ∷ a) (y ∷ b) (suc j) h = get_or-or_into a b j (omega arith)

bit_or-as_int : (x y : ℕ) → x < 2 → y < 2 → bit_or x y ≡ as_int ((x == 1) || (y == 1))
bit_or-as_int zero zero h k = refl
bit_or-as_int zero (suc zero) h k = refl
bit_or-as_int (suc zero) zero h k = refl
bit_or-as_int (suc zero) (suc zero) h k = refl
bit_or-as_int zero (suc (suc y)) h k = absurd (omega arith)
bit_or-as_int (suc zero) (suc (suc y)) h k = absurd (omega arith)
bit_or-as_int (suc (suc x)) y h k = absurd (omega arith)

module _ (field : DeviceState → List ℕ) (w : Hid) (count : ℕ)
    (long : (d : ℕ) → length (field (w.state_of d)) ≡ count)
    (bits : (d j : ℕ) → get_or (field (w.state_of d)) j 0 < 2) where
  get_or-merge :
      (n i : ℕ) (acc : List ℕ) (j : ℕ)
      → length acc ≡ count
      → get_or acc j 0 < 2
      → get_or (merge field w n i acc) j 0 ≡ as_int ((get_or acc j 0 == 1) || any_on field w n i j)
  unfolding merge any_on
  get_or-merge zero i acc j l h = ground arith
  get_or-merge (suc n) i acc j l h =
      let s = field (w.state_of (w.slots i).device) in
      let one = get_or-or_into acc s j (l ∙ sym (long (w.slots i).device)) in
      let two = bit_or-as_int (get_or acc j 0) (get_or s j 0) h (bits (w.slots i).device j) in
      ground (arith, one, two, length-or_into acc s, get_or-merge n (i + 1) (or_into acc s) j)

pub get_or-replicate_zero : (n j : ℕ) → get_or {A = ℕ} (replicate n 0) j 0 ≡ 0
get_or-replicate_zero zero j = refl
get_or-replicate_zero (suc n) zero = refl
get_or-replicate_zero (suc n) (suc j) = get_or-replicate_zero n j

module _ (w : Hid) (v : (d : ℕ) → IsDeviceState (w.state_of d)) (j : ℕ) where
  pub actual_keys-any :
      get_or (actual_keys w) j 0 ≡ as_int (any_on (λ s. s.key_state) w w.number_of_devices 0 j)
  unfolding actual_keys
  actual_keys-any = ground (
    arith,
    get_or-replicate_zero input_key_count j,
    get_or-merge (λ s. s.key_state) w input_key_count (λ d. (v d).keys) (λ d. (v d).keys_bits)
        w.number_of_devices 0 (replicate input_key_count 0) j
        (length-replicate {A = ℕ} input_key_count 0),
  )

  pub actual_buttons-any :
      get_or (actual_buttons w) j 0
      ≡ as_int (any_on (λ s. s.button_state) w w.number_of_devices 0 j)
  unfolding actual_buttons
  actual_buttons-any = ground (
    arith,
    get_or-replicate_zero input_buttons_count j,
    get_or-merge (λ s. s.button_state) w input_buttons_count (λ d. (v d).buttons)
        (λ d. (v d).buttons_bits) w.number_of_devices 0 (replicate input_buttons_count 0) j
        (length-replicate {A = ℕ} input_buttons_count 0),
  )
