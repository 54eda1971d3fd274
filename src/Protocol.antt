-- ===== src/Protocol.antt =====
-- clients/rust/src/core/protocol.rs: the messages of the signaling connection.
pub mod Values
pub mod Wire
pub mod Reading
pub mod Laws
mod Examples
use lobbylink.Base.{ℕ, Bool, List, Option, ◌||◌, Text, codes, text_eq}
use lobbylink.Options.{CreateOptions}
use lobbylink.Roster.{WirePlayer}
use Values.{Json}

unfoldable pub is_fatal_code : Text → Bool
is_fatal_code code =
    text_eq code (codes "replaced")
    || (text_eq code (codes "session-superseded")
        || (text_eq code (codes "room-expired") || text_eq code (codes "slow-consumer")))

unfoldable pub is_game_over_code : Text → Bool
is_game_over_code code =
    text_eq code (codes "replaced")
    || (text_eq code (codes "session-superseded") || text_eq code (codes "room-expired"))

-- The ICE candidate is kept as JSON.
pub data SignalPayload : Type 0 where
  offer answer : Text → SignalPayload
  ice : Option Json → SignalPayload
  unknown : SignalPayload

pub data ClientMessage : Type 0 where
  join : Text → Option Text → Option Text → Option CreateOptions → ClientMessage
  claim_slot : Text → ℕ → Option Text → ClientMessage
  signal : ℕ → SignalPayload → ClientMessage
  leave : ClientMessage

pub record IceServer : Type 0 where
  pub urls : List Text
  pub username : Option Text
  pub credential : Option Text

pub record JoinedMsg : Type 0 where
  pub code : Text
  pub self_id : ℕ
  pub max_players : ℕ
  pub started : Bool
  pub resume_token : Text
  pub players : List WirePlayer
  pub ice_servers : List IceServer

pub data ServerMessage : Type 0 where
  joined : JoinedMsg → ServerMessage
  player_joined : ℕ → List WirePlayer → ServerMessage
  player_left : ℕ → Text → ServerMessage
  player_rejoined : ℕ → Bool → ServerMessage
  player_replaced : ℕ → ServerMessage
  room_started : ServerMessage
  signal_from : ℕ → SignalPayload → ServerMessage
  error : Text → Text → ServerMessage
  unknown_message : ServerMessage
