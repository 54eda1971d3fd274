-- ===== src/Wasm.antt =====
-- clients/rust/src/wasm: the backend for the browser. The state behind `Rc<RefCell<Inner>>` stands
-- here, one child for each group of functions, then the proofs. The program runs on one thread, and
-- an async function runs from one `await` to the next without a break: a task that awaits is a value
-- of `Task` with the variables that it goes on with, and what is spawned is a task too. Log lines
-- are not modelled. What a segment does outside the state is appended to `log`, newest first.
pub mod Stats
pub mod Links
pub mod Signals
pub mod Lobby
pub mod Callbacks
pub mod Sends
pub mod Worker
pub mod Game
pub mod Steps
pub mod Kept
pub mod Invariant
pub mod Directed
pub mod Reachable
pub mod Runs
pub mod Closing
pub mod Unseen
pub mod Effects
pub mod Rounds
mod Examples
use lobbylink.Base.{ℕ, Bool, true, List, [], ◌∷◌, ◌++◌, Option, none, some, if◌then◌else◌, Text}
use lobbylink.Base.Map
use lobbylink.Base.Map.{HashMap}
use lobbylink.Base.Outcome.{Outcome}
use lobbylink.Error.{LobbyError}
use lobbylink.Events.{Event}
use lobbylink.Options.{StorageKind}
use lobbylink.Protocol.{ClientMessage, SignalPayload, IceServer}
use lobbylink.Protocol.Values.{Json}
use lobbylink.Reassembly.{Reassembler}
use lobbylink.Roster.{PlayerInfo}
use Stats.{Stat}

-- A waiter is the number of the oneshot whose sender it is.
pub record Link : Type 0 where
  pub player_id : ℕ
  pub initiator : Bool
  pub epoch : ℕ
  pub closed : Bool
  pub next_msg_id : ℕ
  pub reassembler : Reassembler
  pub pending_candidates : Option (List Json)
  pub open_waiters : List ℕ
  pub drain_waiters : List ℕ

-- A job; `done` is the number of the caller that waits for its result.
pub record SendJob : Type 0 where
  pub bytes : List ℕ
  pub done : ℕ

pub record SendQueue : Type 0 where
  pub items : List SendJob
  pub running : Bool

-- What the sender of a oneshot left: a link, by its epoch, whether the channel opened, a unit, or
-- nothing, when it was dropped.
pub data Mail : Type 0 where
  link : ℕ → Mail
  opened : Bool → Mail
  drained dropped : Mail

-- `send_one` in its loop, before the chunk `seq`, with the chunks that are left.
pub record Sending : Type 0 where
  pub to : ℕ
  pub job : SendJob
  pub epoch : ℕ
  pub msg_id : ℕ
  pub total : ℕ
  pub left : ℕ
  pub seq : ℕ

-- What follows the candidates that waited: nothing, or the answer.
pub data After : Type 0 where
  done : After
  create_answer : ℕ → After

-- Where a task stands: at its start, or at an `await`, with what it awaits. Links are named by their
-- epochs.
pub data Task : Type 0 where
  offer_start offer_created offer_set : (epoch : ℕ) → Task
  signal_start : (from : ℕ) → SignalPayload → Task
  offer_applied answer_created answer_set : (epoch from : ℕ) → Task
  answer_applied : (epoch : ℕ) → Task
  flushing : (epoch : ℕ) → List Json → After → Task
  rebuild_sleep : (player_id epoch : ℕ) → Task
  pair_start pair_stats : (epoch : ℕ) → Task
  worker_start : (to : ℕ) → Task
  link_wait : (to : ℕ) → SendJob → (waiter : ℕ) → Task
  open_wait : (to : ℕ) → SendJob → (epoch waiter : ℕ) → Task
  drain_wait : Sending → (waiter : ℕ) → Task

pub data Output : Type 0 where
  event : Event → Output
  ws_send : ClientMessage → Output
  ws_close : Output
  storage_clear : Option Text → StorageKind → Output
  open_connection : ℕ → List IceServer → Bool → Output
  close_connection : ℕ → Output
  remote_set : ℕ → Output
  add_candidate : ℕ → Json → Output
  sleep : ℕ → ℕ → ℕ → Output
  transmit : ℕ → List ℕ → Output
  datagram : ℕ → List ℕ → Output
  reply : ℕ → Outcome LobbyError (Unit {0}) → Output

-- `peers` holds epochs, and `links` the links behind them, those too that only tasks still hold.
-- `handlers` says that the handlers of the WebSocket are installed, and `mail` what was sent to the
-- oneshots, which `next_waiter` numbers.
pub record Inner : Type 0 where
  pub self_id : ℕ
  pub max_players : ℕ
  pub roster : List PlayerInfo
  pub started : Bool
  pub closed : Bool
  pub fatal_seen : Bool
  pub peers : HashMap ℕ
  pub links : HashMap Link
  pub rebuild_counts : HashMap ℕ
  pub epoch_counter : ℕ
  pub ice_servers : List IceServer
  pub force_relay : Bool
  pub storage_key : Option Text
  pub storage_kind : StorageKind
  pub link_waiters : HashMap (List ℕ)
  pub send_queues : HashMap SendQueue
  pub handlers : Bool
  pub mail : HashMap Mail
  pub next_waiter : ℕ
  pub tasks : List Task
  pub log : List Output

-- `RtcDataChannelState` and `RtcSignalingState`; a browser may have states that web-sys does not know.
pub data ChannelState : Type 0 where
  connecting open_channel closing closed other : ChannelState

pub data SignalingState : Type 0 where
  stable have_local_offer have_remote_offer : SignalingState
  have_local_pranswer have_remote_pranswer closed other : SignalingState

-- What the browser answers in one segment. `fulfilled` is how the awaited promise ended. Channel
-- answers that change within a segment are given for each job and chunk.
pub record Web : Type 0 where
  pub ws_open : Bool
  pub config_ok : Bool
  pub connection_ok : Bool
  pub fulfilled : Bool
  pub local_description : Option Text
  pub candidate_ok : Json → Bool
  pub signaling_state : ℕ → SignalingState
  pub connection_state : ℕ → Text
  pub reliable_state : ℕ → ChannelState
  pub buffered_amount : ℕ → ℕ → ℕ
  pub send_ok : ℕ → ℕ → Bool
  pub best_effort_state : ℕ → ChannelState
  pub best_effort_buffered : ℕ → ℕ
  pub stats : List Stat
  pub timed_out : Bool
  pub now_ms : ℕ

abbrev pub put : Inner → Output → Inner
put a o = record a { log = o ∷ a.log }

abbrev pub spawn : Inner → Task → Inner
spawn a t = record a { tasks = a.tasks ++ (t ∷ []) }

unfoldable pub emit : Inner → Event → Inner
emit a e = if a.closed then a else put a (event e)

abbrev pub set_link : Inner → ℕ → Link → Inner
set_link a epoch l = record a { links = Map.insert a.links epoch l }

-- `link.closed.get()`
abbrev pub is_closed : Inner → ℕ → Bool
is_closed a epoch = elim (Map.get a.links epoch) [ none ↦ true | some l ↦ l.closed ]
