-- ===== src/Scheduler/Linked.antt =====
-- The linked lists of kernel/hardware/devices/cpu/scheduler.c: threads and processes. A pointer is an
-- address, 0 is NULL. A linked list is the list of its elements, in the order of their pointers `next`;
-- `key` gives the address of an element.
pub mod Chain
pub mod Removal
pub mod Traced
use blesk_os.Common.{
  ℕ, Bool, true, false, ◌≡◌, Option, none, some, List, [], ◌∷◌, ◌==◌, if◌then◌else◌, All,
}

module _ {A : Type 0} (key : A → ℕ) where
  -- The elements behind the one at an address.
  abbrev pub behind : ℕ → List A → List A
  behind a [] = []
  behind a (t ∷ l) = if key t == a then l else behind a l

  -- The elements from the pointer to the last element that was looked at, which is NULL for none.
  abbrev pub ahead : ℕ → List A → List A
  ahead a l = if a == 0 then l else behind a l

  -- The list without the element at an address.
  abbrev pub without : ℕ → List A → List A
  without a [] = []
  without a (t ∷ l) = if key t == a then l else t ∷ without a l

  -- A change of the element at an address.
  abbrev pub change : ℕ → (A → A) → List A → List A
  change a f [] = []
  change a f (t ∷ l) = (if key t == a then f t else t) ∷ change a f l

  -- The first element is taken out: the list is taken away as a whole and put back without it. Other
  -- processors may have put the elements `added` into it in between; then the pointer goes through
  -- them up to NULL, and the write to its field `next` is a fault, `none`.
  unfoldable pub unlink_first : List A → ℕ → List A → Option (List A)
  unlink_first [] a l = some (without a l)
  unlink_first (t ∷ added) a l = none

  -- The element at an address.
  abbrev pub find : ℕ → List A → Option A
  find a [] = none
  find a (t ∷ l) = if key t == a then some t else find a l

  -- The elements up to the one at an address, which is among them.
  abbrev pub up_to : ℕ → List A → List A
  up_to a [] = []
  up_to a (t ∷ l) = if key t == a then t ∷ [] else t ∷ up_to a l

  abbrev pub looked_at : ℕ → List A → List A
  looked_at a l = if a == 0 then [] else up_to a l

  -- No element is at NULL and no two are at one address.
  abbrev pub IsLinked : List A → Type 0
  IsLinked [] = Unit
  IsLinked (t ∷ l) = ((key t == 0) ≡ false) × All (λ s. (key s == key t) ≡ false) l × IsLinked l
