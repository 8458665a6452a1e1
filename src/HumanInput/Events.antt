-- ===== src/HumanInput/Events.antt =====
-- The ring of input events that the screen subsystem reads:
-- `add_event_to_screen_subsystem_list` and the reader of the event loop in
-- kernel/hardware/subsystems/screen/screen.c.
pub mod Queue
use blesk_os.Common.{
  ℕ, ◌+◌, ◌-◌, ◌%◌, Bool, true, false, not, Option, none, some, ◌==◌, if◌then◌else◌,
}
use blesk_os.HumanInput.State.{GlobalState}

abbrev pub event_key_pressed : ℕ
event_key_pressed = 1

abbrev pub event_key_released : ℕ
event_key_released = 2

abbrev pub event_mouse_button_pressed : ℕ
event_mouse_button_pressed = 3

abbrev pub event_mouse_button_released : ℕ
event_mouse_button_released = 4

abbrev pub event_mouse_movement : ℕ
event_mouse_movement = 5

-- `MAX_NUMBER_OF_HUMAN_INPUT_EVENTS`.
abbrev pub max_events : ℕ
max_events = 16

-- `human_input_event_t`.
pub record Event : Type 0 where
  pub state : GlobalState
  pub kind : ℕ
  pub event_value : ℕ

-- `human_input_event_list_t`, with the flag that the subsystem exists and the number of times that
-- its thread was unblocked.
pub record EventList : Type 0 where
  pub stack : ℕ → Event
  pub producer : ℕ
  pub consumer : ℕ
  pub is_there_screen_subsystem : Bool
  pub unblocked : ℕ

abbrev pub put_slot : (ℕ → Event) → ℕ → Event → ℕ → Event
put_slot stack p e i = if i == p then e else stack i

-- `add_event_to_screen_subsystem_list`.
unfoldable pub add_event : GlobalState → ℕ → ℕ → EventList → EventList
add_event g kind value l =
    if not l.is_there_screen_subsystem
    then l
    else let next_slot = (l.producer + 1) % max_events in
      if next_slot == l.consumer then l else record l {
        stack =
            put_slot l.stack l.producer (record { state = g; kind = kind; event_value = value });
        producer = next_slot;
        unblocked = l.unblocked + 1;
      }

-- The event that the loop reads, if there is one.
unfoldable pub next_event : EventList → Option Event
next_event l = if l.consumer == l.producer then none else some (l.stack l.consumer)

-- The end of a round of the loop.
unfoldable pub finish_event : EventList → EventList
finish_event l = record l { consumer = (l.consumer + 1) % max_events }
