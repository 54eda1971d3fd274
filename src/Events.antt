-- ===== src/Events.antt =====
-- clients/rust/src/core/events.rs. Peer states and candidate types are the texts that the events
-- carry.
use lobbylink.Base.{ℕ, Bool, List, if◌then◌else◌, Text, codes, text_eq}

pub data MessageKind : Type 0 where
  reliable best_effort : MessageKind

pub data PlayerLeftReason : Type 0 where
  explicit_leave disconnected : PlayerLeftReason

-- `PlayerLeftReason::from_wire`
unfoldable pub from_wire : Text → PlayerLeftReason
from_wire reason = if text_eq reason (codes "explicit-leave") then explicit_leave else disconnected

pub data Event : Type 0 where
  message : ℕ → MessageKind → List ℕ → Event
  player_joined : ℕ → Event
  player_left : ℕ → PlayerLeftReason → Event
  player_rejoined : ℕ → Bool → Event
  player_replaced : ℕ → Event
  started : Event
  peer_state : ℕ → Text → Event
  candidate_pair : ℕ → Text → Text → Event
  lobby_error : Text → Text → Event
  signaling_closed : Text → Text → Event
