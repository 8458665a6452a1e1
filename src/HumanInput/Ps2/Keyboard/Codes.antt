-- ===== src/HumanInput/Ps2/Keyboard/Codes.antt =====
-- Scan codes as a keyboard sends them: what each key action is as bytes in the three sets, apart
-- from how ps2_keyboard.c parses them.
use blesk_os.Common.{ℕ, ◌+◌, ◌<◌, ◌≢◌, ◌≡◌, refl, List, [], ◌∷◌, ◌++◌}
use blesk_os.HumanInput.Keys.{key_print_screen, key_pause}
use blesk_os.HumanInput.Designated.{size, element}
use blesk_os.HumanInput.Ps2.Tables.{set1_map, set1_e0_map, set2_map, set2_e0_map, set3_map}

-- A key action: a plain or an extended (E0) code of a key, or one of the two odd keys.
pub data Action : Type 0 where
  press : ℕ → Action
  release : ℕ → Action
  ext_press : ℕ → Action
  ext_release : ℕ → Action
  print_press : Action
  print_release : Action
  pause : Action

-- A set of scan codes: bytes of an action, the codes that it has, and the tables of keys.
pub record ScanSet : Type 1 where
  pub bytes : Action → List ℕ
  pub IsCode : Action → Type 0
  pub plain : List (ℕ × ℕ)
  pub extended : List (ℕ × ℕ)

abbrev pub bytes1 : Action → List ℕ
bytes1 (press b) = b ∷ []
bytes1 (release b) = (b + 0x80) ∷ []
bytes1 (ext_press b) = 0xE0 ∷ b ∷ []
bytes1 (ext_release b) = 0xE0 ∷ (b + 0x80) ∷ []
bytes1 print_press = 0xE0 ∷ 0x2A ∷ 0xE0 ∷ 0x37 ∷ []
bytes1 print_release = 0xE0 ∷ 0xB7 ∷ 0xE0 ∷ 0xAA ∷ []
bytes1 pause = 0xE1 ∷ 0x1D ∷ 0x45 ∷ 0xE1 ∷ 0x9D ∷ 0xC5 ∷ []

-- 0x2A and 0x37 behind E0 belong to the print screen key.
abbrev pub IsCode1 : Action → Type 0
IsCode1 (press b) = b < 0x59
IsCode1 (release b) = b < 0x59
IsCode1 (ext_press b) = (b < 0x6E) × (b ≢ 0x2A)
IsCode1 (ext_release b) = (b < 0x6E) × (b ≢ 0x37)
IsCode1 _ = Unit

abbrev pub bytes2 : Action → List ℕ
bytes2 (press b) = b ∷ []
bytes2 (release b) = 0xF0 ∷ b ∷ []
bytes2 (ext_press b) = 0xE0 ∷ b ∷ []
bytes2 (ext_release b) = 0xE0 ∷ 0xF0 ∷ b ∷ []
bytes2 print_press = 0xE0 ∷ 0x12 ∷ 0xE0 ∷ 0x7C ∷ []
bytes2 print_release = 0xE0 ∷ 0xF0 ∷ 0x7C ∷ 0xE0 ∷ 0xF0 ∷ 0x12 ∷ []
bytes2 pause = 0xE1 ∷ 0x14 ∷ 0x77 ∷ 0xE1 ∷ 0xF0 ∷ 0x14 ∷ 0xF0 ∷ 0x77 ∷ []

abbrev pub IsCode2 : Action → Type 0
IsCode2 (press b) = b < 0x84
IsCode2 (release b) = b < 0x84
IsCode2 (ext_press b) = (b < 0x7E) × (b ≢ 0x12)
IsCode2 (ext_release b) = (b < 0x7E) × (b ≢ 0x7C)
IsCode2 _ = Unit

-- Set 3 has plain codes only.
abbrev pub bytes3 : Action → List ℕ
bytes3 (press b) = b ∷ []
bytes3 (release b) = 0xF0 ∷ b ∷ []
bytes3 _ = []

abbrev pub IsCode3 : Action → Type 0
IsCode3 (press b) = b < 0x8E
IsCode3 (release b) = b < 0x8E
IsCode3 _ = ⊥

abbrev pub set1 : ScanSet
set1 = record { bytes = bytes1; IsCode = IsCode1; plain = set1_map; extended = set1_e0_map }

abbrev pub set2 : ScanSet
set2 = record { bytes = bytes2; IsCode = IsCode2; plain = set2_map; extended = set2_e0_map }

abbrev pub set3 : ScanSet
set3 = record { bytes = bytes3; IsCode = IsCode3; plain = set3_map; extended = [] }

module _ {W : Type 0} (put : W → ℕ → ℕ → W) (s : ScanSet) where
  -- What one action means: the events that reach the group, each a key and 1 or 0.
  abbrev pub meaning : Action → W → W
  meaning (press b) w = put w (element 0 s.plain b) 1
  meaning (release b) w = put w (element 0 s.plain b) 0
  meaning (ext_press b) w = put w (element 0 s.extended b) 1
  meaning (ext_release b) w = put w (element 0 s.extended b) 0
  meaning print_press w = put w key_print_screen 1
  meaning print_release w = put w key_print_screen 0
  meaning pause w = put (put w key_pause 1) key_pause 0

  abbrev pub meanings : List Action → W → W
  meanings [] w = w
  meanings (a ∷ as_) w = meanings as_ (meaning a w)

-- The bytes of a row of actions.
abbrev pub stream : ScanSet → List Action → List ℕ
stream s [] = []
stream s (a ∷ as_) = s.bytes a ++ stream s as_

-- The lengths of the arrays.
pub size-set1 : size set1_map ≡ 0x59
unfolding size set1_map
size-set1 = refl

pub size-set1_e0 : size set1_e0_map ≡ 0x6E
unfolding size set1_e0_map
size-set1_e0 = refl

pub size-set2 : size set2_map ≡ 0x84
unfolding size set2_map
size-set2 = refl

pub size-set2_e0 : size set2_e0_map ≡ 0x7E
unfolding size set2_e0_map
size-set2_e0 = refl

pub size-set3 : size set3_map ≡ 0x8E
unfolding size set3_map
size-set3 = refl
