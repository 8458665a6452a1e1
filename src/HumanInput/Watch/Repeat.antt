-- ===== src/HumanInput/Watch/Repeat.antt =====
-- The repeat of a key that is held.
use blesk_os.Common.{ℕ, ◌-◌, ◌/◌, ◌≡◌, ◌≢◌, ◌≤◌, ltb, get_or, sub32, if◌then◌else◌, arith}
use blesk_os.HumanInput.State.{key_pressed}
use blesk_os.HumanInput.Events.{add_event, event_key_pressed}
use blesk_os.HumanInput.Group.{Hid, timestamp}
use blesk_os.HumanInput.Watch.{repeat_key}

-- How long the last pressed key has been held when the clock is read next.
abbrev pub held : Hid → ℕ
held w = sub32 (timestamp w) (get_or w.global.key_state_timestamp w.global.last_pressed_key 0)

-- How many repeats are due after a time: the first one after 350 milliseconds, and one each 50
-- milliseconds from then on.
abbrev pub due : ℕ → ℕ
due t = (t - 300000) / 50000

-- While the last pressed key is down and no more repeats were counted than are due, a round counts
-- all that are due, and adds one event that the key is pressed if there are new ones and none if
-- not.
repeat_key-due :
    (w : Hid)
    → w.global.last_pressed_key ≢ 0
    → get_or w.global.key_state w.global.last_pressed_key 0 ≡ key_pressed
    → w.global.last_pressed_key_event_count ≤ due (held w)
    → ((repeat_key w).global.last_pressed_key_event_count ≡ due (held w))
      × ((repeat_key w).events ≡ (
          if ltb w.global.last_pressed_key_event_count (due (held w))
          then add_event
              (record (w.global) { last_pressed_key_event_count = due (held w) })
              event_key_pressed
              w.global.last_pressed_key
              w.events
          else w.events))
unfolding repeat_key
repeat_key-due w h k l = (ground arith, ground arith)
