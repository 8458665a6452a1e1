-- ===== src/HumanInput/Events/Queue.antt =====
-- The event ring is a queue of at most fifteen events.
use blesk_os.Common.{
  ◌↔◌, ℕ, ◌+◌, ◌-◌, ◌%◌, ◌<◌, ◌≡◌, ◌⊎◌, inl, inr, true, ap, none, some, ◌==◌, arith, Bool-cases,
}
use blesk_os.HumanInput.State.{GlobalState}
use blesk_os.HumanInput.Events.{Event, EventList, max_events, add_event, next_event, finish_event}

pub record IsRing (l : EventList) : Type 0 where
  pub producer_in : l.producer < max_events
  pub consumer_in : l.consumer < max_events

-- How many events wait, and which is the k-th of them.
abbrev pub count : EventList → ℕ
count l = (l.producer + max_events - l.consumer) % max_events

abbrev pub item : EventList → ℕ → Event
item l k = l.stack ((l.consumer + k) % max_events)

abbrev pub event : GlobalState → ℕ → ℕ → Event
event g kind value = record { state = g; kind = kind; event_value = value }

-- With a screen subsystem, on a ring with its two indices in range in which fewer than fifteen
-- events wait: an event is added behind those that wait, which stay as they are, and the thread is
-- unblocked.
add_event-item :
    (l : EventList) (g : GlobalState) (kind value : ℕ)
    → IsRing l
    → l.is_there_screen_subsystem ≡ true
    → count l < 15
    → let l' = add_event g kind value l in
      IsRing l'
      × (count l' ≡ count l + 1)
      × (item l' (count l) ≡ event g kind value)
      × (l'.unblocked ≡ l.unblocked + 1)
      × ((k : ℕ) → k < count l → item l' k ≡ item l k)
unfolding add_event
add_event-item l g kind value v there room =
    (ground arith, ground arith, ground arith, ground arith, λ k lt. ground arith)

-- With a screen subsystem, on a ring with its indices in range, adding an event leaves the ring as
-- it is exactly when fifteen events wait.
add_event-full :
    (l : EventList) (g : GlobalState) (kind value : ℕ)
    → IsRing l
    → l.is_there_screen_subsystem ≡ true
    → (add_event g kind value l ≡ l) ↔ (count l ≡ 15)
unfolding add_event
add_event-full l g kind value v there =
    (λ same. let p = ap (λ r. r.producer) same in ground arith, λ full. ground arith)

-- On a ring with its indices in range the loop reads the first waiting event, none exactly when
-- none waits, and at the end of the round that event is gone and the others move up.
next_event-item :
    (l : EventList)
    → IsRing l
    → ((next_event l ≡ none) × (count l ≡ 0))
      ⊎ ((next_event l ≡ some (item l 0))
          × (count (finish_event l) + 1 ≡ count l)
          × IsRing (finish_event l)
          × ((k : ℕ) → item (finish_event l) k ≡ item l (k + 1)))
unfolding next_event finish_event
next_event-item l v = elim (Bool-cases (l.consumer == l.producer)) [
  | inl e ↦ inl (rw e, ground arith)
  | inr e ↦ inr (ground arith, ground arith, ground arith, λ k. ap l.stack (omega arith))
]
