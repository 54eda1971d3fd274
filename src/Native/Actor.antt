-- ===== src/Native/Actor.antt =====
-- clients/rust/src/native/actor.rs: the task that owns the lobby, roster and peer state. State here,
-- one child for each group of handlers, then the proofs. Log lines are not modelled. What the
-- webrtc crate answers to the calls of one handler is a record `Rtc`; the handlers make each call
-- at most once. What a handler does outside the actor is appended to `log`, newest first.
pub mod Peers
pub mod Signals
pub mod Lobby
pub mod Messages
pub mod Loop
pub mod Invariant
pub mod Closing
pub mod Stale
pub mod Failures
pub mod Unseen
pub mod Effects
mod Examples
use lobbylink.Base.{
  ℕ, ◌+◌, Bool, true, false, List, [], ◌∷◌, ◌++◌, Option, none, some, if◌then◌else◌, ◌&&◌, ◌||◌,
  ◌==◌, not, Text,
}
use lobbylink.Base.Map.{HashMap}
use lobbylink.Events.{Event}
use lobbylink.Error.{LobbyError}
use lobbylink.Protocol.{ClientMessage, ServerMessage, IceServer}
use lobbylink.Protocol.Values.{Json}
use lobbylink.Reassembly.{Reassembler}
use lobbylink.Roster.{PlayerInfo}
use lobbylink.Native.Link.{ChannelState}

-- The fields of `Link` that the actor reads; the closed flag stands in the actor's `closed_links`,
-- by epoch, since the link is shared with its sender task.
pub record Link : Type 0 where
  pub player_id : ℕ
  pub initiator : Bool
  pub epoch : ℕ

pub record Peer : Type 0 where
  pub link : Link
  pub reassembler : Reassembler
  pub pending_candidates : Option (List Json)

-- `RTCPeerConnectionState` and `RTCSignalingState`
pub data ConnectionState : Type 0 where
  unspecified new connecting connected disconnected failed closed : ConnectionState

pub data SignalingState : Type 0 where
  unspecified stable have_local_offer have_local_pranswer : SignalingState
  have_remote_offer have_remote_pranswer closed : SignalingState

-- The answers of the webrtc crate, of serde_json on candidates, and of the clock.
pub record Rtc : Type 0 where
  pub new_link_ok : Bool
  pub create_offer_ok : Bool
  pub create_answer_ok : Bool
  pub set_local_ok : Bool
  pub local_description : Option Text
  pub sdp_ok : Text → Bool
  pub set_remote_ok : Bool
  pub candidate_ok : Json → Bool
  pub connection_state : ℕ → ConnectionState
  pub state_text : ConnectionState → Text
  pub signaling_state : ℕ → SignalingState
  pub best_effort_state : ℕ → ChannelState
  pub now_ms : ℕ

-- What the actor does to the world. Connections are named by the epoch of their link; a job is the
-- number of the caller that waits for its reply.
pub data Output : Type 0 where
  event : Event → Output
  ws_send : ClientMessage → Output
  ws_ping ws_close : Output
  storage_clear : Option Text → Output
  open_connection : ℕ → List IceServer → Bool → Output
  close_connection : ℕ → Output
  remote_set : ℕ → Text → Output
  add_candidate : ℕ → Json → Output
  query_pair : ℕ → ℕ → Output
  rebuild_timer : ℕ → ℕ → ℕ → Output
  send_datagram : ℕ → List ℕ → Output
  spawn_sender : ℕ → Output
  queue_job : ℕ → List ℕ → ℕ → Output
  reply : ℕ → LobbyError → Output
  close_done : Output

pub record Shared : Type 0 where
  pub started : Bool
  pub closed : Bool
  pub roster : List PlayerInfo

pub record Actor : Type 0 where
  pub self_id : ℕ
  pub max_players : ℕ
  pub roster : List PlayerInfo
  pub peers : HashMap Peer
  pub link_watch : HashMap (Option Link)
  pub send_queues : HashMap (Unit {0})
  pub rebuild_counts : HashMap ℕ
  pub epoch_counter : ℕ
  pub shared : Shared
  pub ice_servers : List IceServer
  pub force_relay : Bool
  pub storage_path : Option Text
  pub keepalive : Bool
  pub fatal_seen : Bool
  pub closed : Bool
  pub closed_links : List ℕ
  pub log : List Output

unfoldable pub contains : List ℕ → ℕ → Bool
contains [] a = false
contains (x ∷ xs) a = x == a || contains xs a

-- `link.is_closed()`
abbrev pub is_closed : Actor → Link → Bool
is_closed a link = contains a.closed_links link.epoch

abbrev pub put : Actor → Output → Actor
put a o = record a { log = o ∷ a.log }

-- `Actor::new`, for the parts of the joined session.
unfoldable pub new_actor :
    ℕ → ℕ → List PlayerInfo → Bool → List IceServer → Bool → Option Text → Bool → Actor
new_actor self_id max_players roster started ice_servers force_relay storage_path keepalive =
    record {
      self_id = self_id;
      max_players = max_players;
      roster = roster;
      peers = [];
      link_watch = [];
      send_queues = [];
      rebuild_counts = [];
      epoch_counter = 0;
      shared = record { started = started; closed = false; roster = roster };
      ice_servers = ice_servers;
      force_relay = force_relay;
      storage_path = storage_path;
      keepalive = keepalive;
      fatal_seen = false;
      closed = false;
      closed_links = [];
      log = [];
    }
