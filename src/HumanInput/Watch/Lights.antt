-- ===== src/HumanInput/Watch/Lights.antt =====
-- The lights of the keyboards.
use blesk_os.Common.{
  zero, suc, ◌+◌, ◌≤◌, ◌<◌, inl, inr, refl, sym, subst, ◌∙◌, ap, ◌==◌, Bool-cases, ℕ, ◌≡◌, true,
  arith,
}
use blesk_os.HumanInput.State.{Leds, same_leds}
use blesk_os.HumanInput.Group.{Slot}
use blesk_os.HumanInput.Watch.{lights_loop, Watch, set_leds, lights_step}

leds_eq : (a b : Leds) → same_leds a b ≡ true → a ≡ b
leds_eq a b h = ground arith

same_leds_refl : (a : Leds) → same_leds a a ≡ true
same_leds_refl a = ground arith

-- The lights of the device at `d` are the global ones.
abbrev pub IsLit : Watch → ℕ → Type 0
IsLit x d = (x.hid.state_of d).leds ≡ x.hid.global.leds

-- What a round leaves as it is.
record Kept (x x' : Watch) : Type 0 where
  global : x'.hid.global ≡ x.hid.global
  slots : x'.hid.slots ≡ x.hid.slots
  lit : (d : ℕ) → IsLit x d → IsLit x' d

lights_step-Kept : (i : ℕ) (x : Watch) → Kept x (lights_step i x)
unfolding lights_step set_leds
lights_step-Kept i x = record {
  global = ground arith;
  slots = ground arith;
  lit = λ d h. ground arith;
}

lights_step-IsLit :
    (i : ℕ) (x : Watch)
    → (x.hid.slots i).sets_leds ≡ true
    → IsLit (lights_step i x) (x.hid.slots i).device
unfolding lights_step set_leds
lights_step-IsLit i x h =
    ground (arith, leds_eq x.hid.global.leds (x.hid.state_of (x.hid.slots i).device).leds)

Kept-trans : (x y z : Watch) → Kept x y → Kept y z → Kept x z
Kept-trans x y z p q = record {
  global = q.global ∙ p.global;
  slots = q.slots ∙ p.slots;
  lit = λ d h. q.lit d (p.lit d h);
}

lights_loop-Kept : (n i : ℕ) (x : Watch) → Kept x (lights_loop n i x)
unfolding lights_loop
lights_loop-Kept zero i x = record { global = refl; slots = refl; lit = λ d h. h }
lights_loop-Kept (suc n) i x =
    Kept-trans x (lights_step i x) (lights_loop n (i + 1) (lights_step i x)) (lights_step-Kept i x)
      (lights_loop-Kept n (i + 1) (lights_step i x))

lights_loop-IsLit :
    (n i : ℕ) (x : Watch) (k : ℕ)
    → i ≤ k
    → k < i + n
    → (x.hid.slots k).sets_leds ≡ true
    → IsLit (lights_loop n i x) (x.hid.slots k).device
unfolding lights_loop
lights_loop-IsLit zero i x k a b h = absurd (omega arith)
lights_loop-IsLit (suc n) i x k a b h = elim (Bool-cases (k == i)) [
  | inl here ↦
      let same : i ≡ k = ground arith in
      (lights_loop-Kept n (i + 1) (lights_step i x)).lit (x.hid.slots k).device (
        subst (λ (j : ℕ). IsLit (lights_step j x) (x.hid.slots k).device) (sym same)
          (lights_step-IsLit k x h))
  | inr later ↦
      let slots = (lights_step-Kept i x).slots in
      subst (λ (s : ℕ → Slot). IsLit (lights_loop n (i + 1) (lights_step i x)) (s k).device) slots
        (lights_loop-IsLit n (i + 1) (lights_step i x) k (ground arith) (omega arith)
          (ap (λ (s : ℕ → Slot). (s k).sets_leds) slots ∙ h))
]

-- A device whose lights are the global ones gets no command.
lights_step-quiet :
    (i : ℕ) (x : Watch)
    → ((x.hid.slots i).sets_leds ≡ true → IsLit x (x.hid.slots i).device)
    → lights_step i x ≡ x
unfolding lights_step
lights_step-quiet i x h = elim (Bool-cases (x.hid.slots i).sets_leds) [
  | inl sets ↦ rw (sets, h sets, same_leds_refl x.hid.global.leds) refl
  | inr none ↦ rw none refl
]

lights_loop-quiet :
    (n i : ℕ) (x : Watch)
    → ((k : ℕ)
        → i ≤ k
        → k < i + n
        → (x.hid.slots k).sets_leds ≡ true
        → IsLit x (x.hid.slots k).device)
    → lights_loop n i x ≡ x
unfolding lights_loop
lights_loop-quiet zero i x h = refl
lights_loop-quiet (suc n) i x h =
    rw (lights_step-quiet i x (h i (omega arith) (omega arith)))
      (lights_loop-quiet n (i + 1) x (λ k a b. h k (omega arith) (omega arith)))

-- The loop over the devices leaves every keyboard of the group that has lights with the global ones,
-- and a second run of the loop changes nothing and sends no command.
lights_loop-twice :
    (x : Watch)
    → let n = x.hid.number_of_devices in
      let x' = lights_loop n 0 x in
      ((k : ℕ) → k < n → (x.hid.slots k).sets_leds ≡ true → IsLit x' (x.hid.slots k).device)
      × (lights_loop n 0 x' ≡ x')
lights_loop-twice x =
    let n = x.hid.number_of_devices in
    let x' = lights_loop n 0 x in
    let lit : (k : ℕ) → k < n → (x.hid.slots k).sets_leds ≡ true → IsLit x' (x.hid.slots k).device =
      λ k a. lights_loop-IsLit n 0 x k (omega arith) (omega arith) in
    let slots = (lights_loop-Kept n 0 x).slots in
    (
      lit,
      lights_loop-quiet n 0 x' (λ k a b h.
          subst (λ (s : ℕ → Slot). IsLit x' (s k).device) (sym slots)
            (lit k (omega arith) (ap (λ (s : ℕ → Slot). (s k).sets_leds) (sym slots) ∙ h))),
    )
