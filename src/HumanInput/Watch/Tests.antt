-- ===== src/HumanInput/Watch/Tests.antt =====
-- Concrete inputs for the watch over the state of the group.
use blesk_os.Common.{◌≡◌, refl, [], ◌∷◌}
use blesk_os.HumanInput.Watch.{Watch, set_leds, leds_payload, lights_step, lights_loop}
use blesk_os.HumanInput.Tests.{off, quiet, world}

abbrev watched : Watch
watched = record {
  hid = record world { global = record quiet { leds = record off { capslock = 1 } } };
  sent = [];
}

-- Both keyboards get the light of caps lock.
lights_loop_sent : (lights_loop 2 0 watched).sent ≡ (11, 4) ∷ (10, 4) ∷ []
unfolding lights_loop lights_step set_leds leds_payload
lights_loop_sent = refl
