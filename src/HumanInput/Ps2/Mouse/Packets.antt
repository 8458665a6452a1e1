-- ===== src/HumanInput/Ps2/Mouse/Packets.antt =====
-- A mouse in step decodes every packet once, and drops those with an overflow bit.
use blesk_os.Common.{
  ℕ, ◌≡◌, refl, bit_and, List, [], ◌∷◌, ◌++◌, map, ◌==◌, if◌then◌else◌, Bool-cases, inl, inr,
}
use blesk_os.HumanInput.Ps2.Mouse.{Mouse, Decoded, mouse_default, decode_packet, receive}

-- A packet of four bytes, and what of it a mouse sends that has `n` bytes in a packet.
pub record Packet : Type 0 where
  pub first : ℕ
  pub second : ℕ
  pub third : ℕ
  pub fourth : ℕ

abbrev pub bytes3 : Packet → List ℕ
bytes3 p = p.first ∷ p.second ∷ p.third ∷ []

abbrev pub bytes4 : Packet → List ℕ
bytes4 p = p.first ∷ p.second ∷ p.third ∷ p.fourth ∷ []

abbrev pub stream : (Packet → List ℕ) → List Packet → List ℕ
stream bytes [] = []
stream bytes (p ∷ ps) = bytes p ++ stream bytes ps

-- A mouse between two packets, with any old bytes in its buffer.
abbrev pub in_step : ℕ → ℕ → Packet → Mouse
in_step status n old = record {
  status = status;
  bytes_per_packet = n;
  packet_ptr = 0;
  packet = bytes4 old;
}

module _ {W : Type 0} (process : W → Decoded → W) (status : ℕ) where
  -- What a packet means.
  abbrev pub meaning : Packet → W → W
  meaning p w =
      if bit_and p.first 0xC0 == 0x00 then process w (decode_packet status (bytes4 p)) else w

  abbrev pub meanings : List Packet → W → W
  meanings [] w = w
  meanings (p ∷ ps) w = meanings ps (meaning p w)

  receive-bytes4 :
      (old p : Packet) (rest : List ℕ) (w : W)
      → receive process (in_step status 4 old) w (bytes4 p ++ rest)
        ≡ receive process (in_step status 4 p) (meaning p w) rest
  unfolding receive
  receive-bytes4 old p rest w = elim (Bool-cases (bit_and p.first 0xC0 == 0x00)) [
    | inl valid ↦ rw valid
    | inr overflow ↦ rw overflow
  ]

  -- A mouse of four bytes to a packet that is in step stays in step, and handles each packet of a
  -- stream once, in order, with those left out that have one of the two highest bits set in their
  -- first byte.
  receive-packets4 :
      (old : Packet) (ps : List Packet) (w : W)
      → ((receive process (in_step status 4 old) w (stream bytes4 ps)).0.packet_ptr ≡ 0)
        × ((receive process (in_step status 4 old) w (stream bytes4 ps)).1 ≡ meanings ps w)
  unfolding receive
  receive-packets4 old [] w = (refl, refl)
  receive-packets4 old (p ∷ ps) w =
      rw (receive-bytes4 old p (stream bytes4 ps) w) (receive-packets4 p ps (meaning p w))

-- The packet of three bytes, with nothing in the fourth place.
abbrev pub short : Packet → Packet
short p = record p { fourth = 0 }

module _ {W : Type 0} (process : W → Decoded → W) where
  receive-bytes3 :
      (old p : Packet) (rest : List ℕ) (w : W)
      → receive process (in_step mouse_default 3 old) w (bytes3 p ++ rest)
        ≡ receive process
            (in_step mouse_default 3 (record p { fourth = old.fourth }))
            (meaning process mouse_default (short p) w)
            rest
  unfolding receive decode_packet
  receive-bytes3 old p rest w = elim (Bool-cases (bit_and p.first 0xC0 == 0x00)) [
    | inl valid ↦ rw valid
    | inr overflow ↦ rw overflow
  ]

  -- A plain mouse, of three bytes to a packet, that is in step stays in step, and handles each
  -- packet of a stream once, in order, with those left out that have one of the two highest bits
  -- set in their first byte.
  receive-packets3 :
      (old : Packet) (ps : List Packet) (w : W)
      → ((receive process (in_step mouse_default 3 old) w (stream bytes3 ps)).0.packet_ptr ≡ 0)
        × ((receive process (in_step mouse_default 3 old) w (stream bytes3 ps)).1
            ≡ meanings process mouse_default (map short ps) w)
  unfolding receive
  receive-packets3 old [] w = (refl, refl)
  receive-packets3 old (p ∷ ps) w = rw (receive-bytes3 old p (stream bytes3 ps) w) (
      receive-packets3 (record p { fourth = old.fourth }) ps
        (meaning process mouse_default (short p) w))
