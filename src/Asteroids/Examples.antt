-- ===== src/Asteroids/Examples.antt =====
-- The messages of the example game: the theorems at concrete messages.
use lobbylink.Base.{ℕ, ◌≡◌, refl, true, false, List, [], ◌∷◌, Option, some, take, arith}
use lobbylink.Base.Outcome.{ok}
use lobbylink.Base.Utf8.{from_utf8_lossy}
use lobbylink.Base.Utf8 as Utf8
use lobbylink.Asteroids.{
  StateMsg, Decoded, state, encode_state, decode, max_bullets, name_max, seq_newer,
}
use lobbylink.Asteroids.RoundTrip.{IsWire, decode-encode_state}
use lobbylink.Asteroids.{hit, decode_hit, long_enough, be_u16, be_f32}
use lobbylink.Asteroids.Sound.{decode_total}

-- One bullet, and a name whose last character, which has two bytes, is cut in half.
abbrev long_name : List ℕ
long_name =
    65 ∷ 65 ∷ 65 ∷ 65 ∷ 65 ∷ 65 ∷ 65 ∷ 65 ∷ 65 ∷ 65 ∷ 65 ∷ 65 ∷ 65 ∷ 65 ∷ 65 ∷ 65 ∷ 65 ∷ 65 ∷ 65
    ∷ 65 ∷ 65 ∷ 65 ∷ 65 ∷ 0xc3 ∷ 0xa9 ∷ []

abbrev message : StateMsg
message = record {
  alive = true;
  thrusting = false;
  invuln = true;
  seq = 65535;
  x = 7;
  y = 8;
  angle = 9;
  vx = 10;
  vy = 11;
  score = 12;
  bullets = record { x = 1; y = 2; vx = 3; vy = 4 } ∷ [];
  name = long_name;
}

message-IsWire : IsWire message
message-IsWire = record {
  seq = omega arith;
  x = omega arith;
  y = omega arith;
  angle = omega arith;
  vx = omega arith;
  vy = omega arith;
  score = omega arith;
  bullets = (record { x = omega arith; y = omega arith; vx = omega arith; vy = omega arith }, tt);
}

decode-encode_state_example :
    decode (encode_state message)
    ≡ ok (
        some (
          state (record message {
            bullets = take max_bullets message.bullets;
            name = from_utf8_lossy (take name_max long_name);
          })))
decode-encode_state_example = decode-encode_state message message-IsWire

-- The half of the last character is replaced.
cut_name :
    from_utf8_lossy (0xc3 ∷ 0xa9 ∷ 0xe2 ∷ 0x82 ∷ 65 ∷ 0xc3 ∷ [])
    ≡ 0xc3 ∷ 0xa9 ∷ 0xef ∷ 0xbf ∷ 0xbd ∷ 65 ∷ 0xef ∷ 0xbf ∷ 0xbd ∷ []
unfolding from_utf8_lossy Utf8.lossy_from Utf8.take_byte Utf8.first_byte Utf8.next_byte
    Utf8.start_of
cut_name = refl

decode_total_example : (m : Option Decoded) × (decode (1 ∷ 0 ∷ 9 ∷ []) ≡ ok m)
decode_total_example = decode_total (1 ∷ 0 ∷ 9 ∷ [])

-- The numbers wrap around.
newer_wraps : (seq_newer 2 65535 ≡ true) × (seq_newer 65535 2 ≡ false)
unfolding seq_newer
newer_wraps = (refl, refl)

hit_decoded : decode (2 ∷ 1 ∷ 2 ∷ 0 ∷ 0 ∷ 0 ∷ 7 ∷ []) ≡ ok (some (hit 258 7))
unfolding decode decode_hit long_enough be_u16 be_f32
hit_decoded = refl
