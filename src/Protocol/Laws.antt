-- ===== src/Protocol/Laws.antt =====
-- What the wire forms agree on.
use lobbylink.Base.{
  All, Bool-cases, inl, inr, ℕ, ◌≡◌, ◌≢◌, true, false, List, [], ◌∷◌, some, if◌then◌else◌, Text,
  codes, text_eq, text_eq→eq, arith,
}
use lobbylink.Protocol.Values.{Json, Fields, num, str, obj, end, field}
use lobbylink.Protocol.{SignalPayload, unknown_message, is_fatal_code, is_game_over_code}
use lobbylink.Protocol.Wire.{payload_json}
use lobbylink.Protocol.Reading.{lookup, server_message}

-- A code that ends the game is a code after which the connection is gone, and "slow-consumer" is
-- the one fatal code that leaves the game going.
pub is_game_over_code-is_fatal_code :
    (code : Text)
    → is_fatal_code code
      ≡ (if is_game_over_code code then true else text_eq code (codes "slow-consumer"))
unfolding is_fatal_code is_game_over_code
is_game_over_code-is_fatal_code code = ground arith

-- The signal message that the server relays: the payload as the sender wrote it.
abbrev pub relayed : ℕ → SignalPayload → Json
relayed from payload = obj (
    field (codes "type") (str (codes "signal"))
      (field (codes "from") (num from) (field (codes "payload") (payload_json payload) end)))

-- The types of messages that the client knows.
abbrev pub known_types : List Text
known_types =
    codes "joined"
    ∷ codes "player-joined"
    ∷ codes "player-left"
    ∷ codes "player-rejoined"
    ∷ codes "player-replaced"
    ∷ codes "room-started"
    ∷ codes "signal"
    ∷ codes "error"
    ∷ []

not_that : (s t : Text) → s ≢ t → text_eq s t ≡ false
not_that s t h = elim (Bool-cases (text_eq s t)) [
  | inl same ↦ absurd (h (text_eq→eq s t same))
  | inr other ↦ other
]

-- A message of any other type is passed over, whatever else it holds.
pub server_message_unknown :
    (kind : Text) (fields : Fields)
    → lookup (codes "type") fields ≡ some (str kind)
    → All (λ k. kind ≢ k) known_types
    → server_message (obj fields) ≡ some unknown_message
unfolding server_message
server_message_unknown kind fields t h = rw t (
    rw (
      not_that kind (codes "joined") h.0,
      not_that kind (codes "player-joined") h.1.0,
      not_that kind (codes "player-left") h.1.1.0,
      not_that kind (codes "player-rejoined") h.1.1.1.0,
      not_that kind (codes "player-replaced") h.1.1.1.1.0,
      not_that kind (codes "room-started") h.1.1.1.1.1.0,
      not_that kind (codes "signal") h.1.1.1.1.1.1.0,
      not_that kind (codes "error") h.1.1.1.1.1.1.1.0,
    ))
