-- ===== src/HumanInput/Group/Devices.antt =====
-- Joining and leaving the group: `add_human_input_device` and `remove_human_input_device` of
-- kernel/hardware/groups/human_input/human_input.c.
use blesk_os.Common.{
  ℕ, zero, suc, ◌+◌, ◌-◌, ◌≤◌, ◌<◌, ◌≡◌, refl, ap, ap₂, ◌∙◌, ◌&&◌, List, [], ◌∷◌, ◌++◌, ◌==◌, leb,
  ltb, length, arith, if◌then◌else◌, inl, inr, Bool-cases,
}
use blesk_os.HumanInput.Group.{Hid, Slot}

-- `MAX_NUMBER_OF_HUMAN_INPUT_DEVICES`.
abbrev pub max_devices : ℕ
max_devices = 8

abbrev write_slot : (ℕ → Slot) → ℕ → Slot → ℕ → Slot
write_slot f i s k = if k == i then s else f k

-- `add_human_input_device`; a full group ignores the device.
unfoldable pub add_device : Slot → Hid → Hid
add_device s w = if leb max_devices w.number_of_devices then w else record w {
  slots = write_slot w.slots w.number_of_devices s;
  number_of_devices = w.number_of_devices + 1;
}

-- The inner loop: `n` slots from `j` on take over what is behind them.
unfoldable pub shift_slots : ℕ → ℕ → (ℕ → Slot) → ℕ → Slot
shift_slots zero j f = f
shift_slots (suc n) j f = shift_slots n (j + 1) (write_slot f j (f (j + 1)))

-- The outer loop, with `n` slots left from `i` on.
unfoldable pub remove_from : ℕ → ℕ → ℕ → Hid → Hid
unfolding shift_slots
remove_from zero i device w = w
remove_from (suc n) i device w =
    let rest = remove_from n (i + 1) device w in
    if (w.slots i).device == device
    then record w {
      slots = shift_slots (w.number_of_devices - 1 - i) i w.slots;
      number_of_devices = w.number_of_devices - 1;
    }
    else rest

-- `remove_human_input_device`.
unfoldable pub remove_device : ℕ → Hid → Hid
unfolding remove_from
remove_device device w = remove_from w.number_of_devices 0 device w

-- The members: `n` slots from `i` on.
unfoldable pub members : ℕ → ℕ → (ℕ → Slot) → List Slot
members zero i f = []
members (suc n) i f = f i ∷ members n (i + 1) f

-- The list without its first entry for a device.
unfoldable pub erase_device : ℕ → List Slot → List Slot
erase_device device [] = []
erase_device device (s ∷ ss) =
    let rest = erase_device device ss in if s.device == device then ss else s ∷ rest

shift_slots-lem :
    (n j k : ℕ) (f : ℕ → Slot)
    → shift_slots n j f k ≡ (if leb j k && ltb k (j + n) then f (k + 1) else f k)
unfolding shift_slots
shift_slots-lem zero j k f = ground arith
shift_slots-lem (suc n) j k f =
    ground (arith, shift_slots-lem n (j + 1) k (write_slot f j (f (j + 1))))

members-shifted :
    (n i m : ℕ) (f : ℕ → Slot) (g : ℕ → Slot)
    → ((k : ℕ) → m ≤ k → k < i + n → g k ≡ f (k + 1))
    → m ≤ i
    → members n i g ≡ members n (i + 1) f
unfolding members
members-shifted zero i m f g h l = refl
members-shifted (suc n) i m f g h l =
    ground (arith, h i, members-shifted n (i + 1) m f g (λ k a b. h k a (omega arith)))

members-write_end :
    (n i k : ℕ) (f : ℕ → Slot) (s : Slot)
    → k ≡ i + n
    → members (suc n) i (write_slot f k s) ≡ members n i f ++ (s ∷ [])
unfolding members
members-write_end zero i k f s h = ground arith
members-write_end (suc n) i k f s h = ground (arith, members-write_end n (i + 1) k f s)

length-members : (n i : ℕ) (f : ℕ → Slot) → length (members n i f) ≡ n
unfolding members
length-members zero i f = refl
length-members (suc n) i f = ap suc (length-members n (i + 1) f)

-- What the outer loop leaves from `i` on: the members `ys`, and the slots before.
record Removed (ys : List Slot) (i : ℕ) (w w' : Hid) : Type 0 where
  number : w'.number_of_devices ≡ i + length ys
  rest : members (length ys) i w'.slots ≡ ys
  before : (k : ℕ) → k < i → w'.slots k ≡ w.slots k

Removed-hit :
    (n i : ℕ) (w : Hid)
    → w.number_of_devices ≡ i + suc n
    → Removed (members n (i + 1) w.slots) i w (record w {
      slots = shift_slots (w.number_of_devices - 1 - i) i w.slots;
      number_of_devices = w.number_of_devices - 1;
    })
Removed-hit n i w h = record {
  number = omega (arith, length-members n (i + 1) w.slots);
  rest = rw (length-members n (i + 1) w.slots) (
      members-shifted n i i w.slots _
        (λ k a b. ground (arith, shift_slots-lem (w.number_of_devices - 1 - i) i k w.slots))
        (omega arith));
  before = λ k l. ground (arith, shift_slots-lem (w.number_of_devices - 1 - i) i k w.slots);
}

Removed-miss :
    {i : ℕ} {w w' : Hid} {ys : List Slot}
    → Removed ys (i + 1) w w'
    → Removed (w.slots i ∷ ys) i w w'
unfolding members
Removed-miss {i} {w} {w'} {ys} r = record {
  number = omega (arith, r.number);
  rest = ap₂ ◌∷◌ (r.before i (omega arith)) r.rest;
  before = λ k l. r.before k (omega arith);
}

remove_from-Removed :
    (n i device : ℕ) (w : Hid)
    → w.number_of_devices ≡ i + n
    → Removed (erase_device device (members n i w.slots)) i w (remove_from n i device w)
unfolding remove_from members erase_device
remove_from-Removed zero i device w h = record {
  number = ground arith;
  rest = refl;
  before = λ k l. refl;
}
remove_from-Removed (suc n) i device w h = elim (Bool-cases ((w.slots i).device == device)) [
  | inl hit ↦ rw hit (Removed-hit n i w h)
  | inr miss ↦ rw miss (Removed-miss (remove_from-Removed n (i + 1) device w (omega arith)))
]

-- Removing a device takes its first entry out of the list of members and keeps the order of the
-- others.
remove_device-erase :
    (device : ℕ) (w : Hid)
    → let w' = remove_device device w in
      members w'.number_of_devices 0 w'.slots
      ≡ erase_device device (members w.number_of_devices 0 w.slots)
unfolding remove_device
remove_device-erase device w =
    let r = remove_from-Removed w.number_of_devices 0 device w (omega arith) in
    ap (λ (n : ℕ). members n 0 (remove_device device w).slots) (r.number ∙ omega arith) ∙ r.rest

add-one_suc : (n : ℕ) → n + 1 ≡ suc n
add-one_suc n = omega arith

-- Adding a device to a group of fewer than eight puts it behind the members; a full group keeps
-- its members.
add_device-append :
    (s : Slot) (w : Hid)
    → let w' = add_device s w in
      members w'.number_of_devices 0 w'.slots ≡ (
        if ltb w.number_of_devices max_devices
        then members w.number_of_devices 0 w.slots ++ (s ∷ [])
        else members w.number_of_devices 0 w.slots)
unfolding add_device
add_device-append s w = ground (
  arith,
  members-write_end w.number_of_devices 0 w.number_of_devices w.slots s,
  ap (λ (n : ℕ). members n 0 (write_slot w.slots w.number_of_devices s))
      (add-one_suc w.number_of_devices),
)
