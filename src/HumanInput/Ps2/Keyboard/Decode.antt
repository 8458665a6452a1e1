-- ===== src/HumanInput/Ps2/Keyboard/Decode.antt =====
-- `ps2_keyboard_receive` decodes every stream of scan codes, and where it reads outside of a table.
use blesk_os.Common.{
  ℕ, ◌-◌, ◌%◌, ◌≤◌, ◌<◌, ◌≢◌, ◌≡◌, refl, ◌↔◌, ◌∙◌, inl, inr, none, some, List, [], ◌∷◌, ◌++◌, arith,
  All, Option-cases,
}
use blesk_os.HumanInput.Designated.{fetch-some, fetch-none}
use blesk_os.HumanInput.Ps2.Keyboard.{Row, state_start, parse_byte, receive}
use blesk_os.HumanInput.Ps2.Keyboard.Maps.{parsing_map1, parsing_map2, parsing_map3}
use blesk_os.HumanInput.Ps2.Keyboard.Codes.{
  Action, press, release, ext_press, ext_release, print_press, print_release, pause, ScanSet,
  IsCode1, bytes1, set1, IsCode2, bytes2, set2, IsCode3, bytes3, set3, meaning, meanings, stream,
  size-set1, size-set1_e0, size-set2, size-set2_e0, size-set3,
}
use blesk_os.HumanInput.Ps2.Tables.{set1_map, set1_e0_map, set2_map, set2_e0_map, set3_map}

module _ {W : Type 0} (put : W → ℕ → ℕ → W) where
  receive-append :
      (map : List Row) (xs ys : List ℕ) (s s' : ℕ) (w w' : W)
      → receive put map xs s w ≡ some (s', w')
      → receive put map (xs ++ ys) s w ≡ receive put map ys s' w'
  unfolding receive
  receive-append map [] ys s s' w w' h = ground arith
  receive-append map (x ∷ xs) ys s s' w w' h = elim (Option-cases (parse_byte put map s x w)) [
    | inl e ↦ cc (rw (e, receive) at h)
    | inr (r, e) ↦ rw (e, receive) (receive-append map xs ys r.0 s' r.1 w' (rw (e, receive) at h))
  ]

  receive-bytes1 :
      (a : Action) (w : W)
      → IsCode1 a
      → receive put parsing_map1 (bytes1 a) state_start w ≡ some (state_start, meaning put set1 a w)
  unfolding receive parsing_map1
  receive-bytes1 (press b) w h = ground (arith, fetch-some set1_map b, size-set1)
  receive-bytes1 (release b) w h = ground (arith, fetch-some set1_map b, size-set1)
  receive-bytes1 (ext_press b) w h = ground (arith, fetch-some set1_e0_map b, size-set1_e0)
  receive-bytes1 (ext_release b) w h = ground (arith, fetch-some set1_e0_map b, size-set1_e0)
  receive-bytes1 print_press w h = refl
  receive-bytes1 print_release w h = refl
  receive-bytes1 pause w h = refl

  receive-bytes2 :
      (a : Action) (w : W)
      → IsCode2 a
      → receive put parsing_map2 (bytes2 a) state_start w ≡ some (state_start, meaning put set2 a w)
  unfolding receive parsing_map2
  receive-bytes2 (press b) w h = ground (arith, fetch-some set2_map b, size-set2)
  receive-bytes2 (release b) w h = ground (arith, fetch-some set2_map b, size-set2)
  receive-bytes2 (ext_press b) w h = ground (arith, fetch-some set2_e0_map b, size-set2_e0)
  receive-bytes2 (ext_release b) w h = ground (arith, fetch-some set2_e0_map b, size-set2_e0)
  receive-bytes2 print_press w h = refl
  receive-bytes2 print_release w h = refl
  receive-bytes2 pause w h = refl

  receive-bytes3 :
      (a : Action) (w : W)
      → IsCode3 a
      → receive put parsing_map3 (bytes3 a) state_start w ≡ some (state_start, meaning put set3 a w)
  unfolding receive parsing_map3
  receive-bytes3 (press b) w h = ground (arith, fetch-some set3_map b, size-set3)
  receive-bytes3 (release b) w h = ground (arith, fetch-some set3_map b, size-set3)
  receive-bytes3 (ext_press b) w h = absurd h
  receive-bytes3 (ext_release b) w h = absurd h
  receive-bytes3 print_press w h = absurd h
  receive-bytes3 print_release w h = absurd h
  receive-bytes3 pause w h = absurd h

  -- Decoding of a stream from decoding of each action.
  receive-stream :
      (map : List Row) (s : ScanSet)
      → ((a : Action) (w : W)
          → s.IsCode a
          → receive put map (s.bytes a) state_start w ≡ some (state_start, meaning put s a w))
      → (acts : List Action) (w : W) → All s.IsCode acts
      → receive put map (stream s acts) state_start w ≡ some (state_start, meanings put s acts w)
  unfolding receive
  receive-stream map s one [] w h = refl
  receive-stream map s one (a ∷ acts) w h =
      receive-append map (s.bytes a) (stream s acts) state_start state_start w (meaning put s a w)
        (one a w h.0)
      ∙ receive-stream map s one acts (meaning put s a w) h.1

  -- In set 1 the bytes of any row of key actions give exactly the events of these actions, in
  -- order, and leave the parser in its start state.
  pub receive-stream1 :
      (acts : List Action) (w : W)
      → All IsCode1 acts
      → receive put parsing_map1 (stream set1 acts) state_start w
        ≡ some (state_start, meanings put set1 acts w)
  receive-stream1 = receive-stream parsing_map1 set1 receive-bytes1

  -- In set 2 the bytes of any row of key actions give exactly the events of these actions, in
  -- order, and leave the parser in its start state.
  pub receive-stream2 :
      (acts : List Action) (w : W)
      → All IsCode2 acts
      → receive put parsing_map2 (stream set2 acts) state_start w
        ≡ some (state_start, meanings put set2 acts w)
  receive-stream2 = receive-stream parsing_map2 set2 receive-bytes2

  -- In set 3 the bytes of any row of key presses and releases give exactly their events, in
  -- order, and leave the parser in its start state.
  pub receive-stream3 :
      (acts : List Action) (w : W)
      → All IsCode3 acts
      → receive put parsing_map3 (stream set3 acts) state_start w
        ≡ some (state_start, meanings put set3 acts w)
  receive-stream3 = receive-stream parsing_map3 set3 receive-bytes3

  -- In set 1, in the start state, a byte other than the prefixes E0 and E1 is looked up outside of
  -- the table exactly when its low seven bits are 0x59 or more.
  pub parse_byte-fault1 :
      (b : ℕ) (w : W)
      → b < 256
      → b ≢ 0xE0
      → b ≢ 0xE1
      → (parse_byte put parsing_map1 state_start b w ≡ none) ↔ (0x59 ≤ b % 0x80)
  unfolding parse_byte parsing_map1
  parse_byte-fault1 b w h n0 n1 =
      let low = fetch-some set1_map b in
      let high = fetch-some set1_map (b - 0x80) in
      let low_out = fetch-none set1_map b in
      let high_out = fetch-none set1_map (b - 0x80) in
      (λ e. ground (arith, low, high, size-set1), λ e. ground (arith, low_out, high_out, size-set1))
