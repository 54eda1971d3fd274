-- ===== src/Wasm/Game.antt =====
-- clients/rust/src/wasm/mod.rs: the API type P2PGame, `connect`, and the token in the browser's
-- storage. The handshake is the list of what its handlers see, in order.
pub mod Storage
use lobbylink.Base.{
  ℕ, Bool, true, false, List, [], ◌∷◌, ◌++◌, Option, none, some, ltb, ◌==◌, if◌then◌else◌, ◌&&◌,
  not, length, get_elem?, Text, codes, decimal,
}
use lobbylink.Base.Outcome.{Outcome, ok, err, panic, ◌>>=◌, ◌>>◌, reject_if}
use lobbylink.Error.{LobbyError, new, max_best_effort}
use lobbylink.Framing.{max_reliable_message}
use lobbylink.Options.{CreateOptions, StorageKind, validate_code}
use lobbylink.Protocol.{
  ClientMessage, join, claim_slot, IceServer, JoinedMsg, ServerMessage, joined, error,
}
use lobbylink.Roster.{PlayerInfo, check_target, roster_from_snapshot}
use lobbylink.Url.{signaling_url}
use lobbylink.Wasm.{Inner, Web, SendJob}
use lobbylink.Wasm.Links.{closed_error}
use lobbylink.Wasm.Signals.{initiate_peer}
use lobbylink.Wasm.Worker.{queue_reliable, best_effort_to}
use Storage.{Stores, load, save}

pub record Game : Type 0 where
  pub code : Text
  pub self_id : ℕ
  pub max_players : ℕ
  pub resume_token : Text
  pub ice_servers : List IceServer

abbrev best_effort_too_large : ℕ → LobbyError
best_effort_too_large len = new (codes "message-too-large") (
    codes "best-effort payload "
    ++ (decimal len ++ (codes " exceeds " ++ (decimal max_best_effort ++ codes " bytes"))))

abbrev reliable_too_large : ℕ → LobbyError
reliable_too_large len = new (codes "message-too-large") (
    codes "reliable payload "
    ++ (decimal len ++ (codes " exceeds " ++ (decimal max_reliable_message ++ codes " bytes"))))

abbrev unavailable : ℕ → LobbyError
unavailable to = new (codes "target-unavailable") (codes "no player in slot " ++ decimal to)

-- `P2PGame::send_best_effort`
unfoldable pub game_send_best_effort : Game → Inner → Web → ℕ → List ℕ → Outcome LobbyError Inner
game_send_best_effort game a web to bytes = do
  check_target to game.self_id game.max_players
  reject_if (ltb max_best_effort (length bytes)) (best_effort_too_large (length bytes))
  ok (if a.closed then a else best_effort_to a web to bytes)

unfoldable pub best_effort_to_all : Inner → Web → ℕ → List ℕ → List PlayerInfo → Inner
best_effort_to_all a web self_id bytes [] = a
best_effort_to_all a web self_id bytes (slot ∷ roster) =
    best_effort_to_all
      (if not (slot.id == self_id) && slot.occupied then best_effort_to a web slot.id bytes else a)
      web self_id bytes roster

unfoldable pub game_broadcast : Game → Inner → Web → List ℕ → Outcome LobbyError Inner
game_broadcast game a web bytes = do
  reject_if (ltb max_best_effort (length bytes)) (best_effort_too_large (length bytes))
  ok (if a.closed then a else best_effort_to_all a web game.self_id bytes a.roster)

-- `roster.get(to).is_some_and(|slot| slot.occupied)`
abbrev pub is_occupied : List PlayerInfo → ℕ → Bool
is_occupied roster to = elim (get_elem? roster to) [ none ↦ false | some slot ↦ slot.occupied ]

-- `P2PGame::send_reliable` up to the wait for its result; `done` names the caller.
unfoldable pub game_send_reliable : Game → Inner → ℕ → List ℕ → ℕ → Outcome LobbyError Inner
game_send_reliable game a to bytes done = do
  check_target to game.self_id game.max_players
  reject_if a.closed closed_error
  reject_if (not (is_occupied a.roster to)) (unavailable to)
  reject_if (ltb max_reliable_message (length bytes)) (reliable_too_large (length bytes))
  ok (queue_reliable a to (record { bytes = bytes; done = done }))

pub record ConnectOptions : Type 0 where
  pub server : Text
  pub app_id : Option Text
  pub code : Text
  pub create : Option CreateOptions
  pub resume_token : Option Text
  pub claim_player_id : Option ℕ
  pub ice_servers : List IceServer
  pub force_relay : Bool
  pub storage_key : Option Text
  pub storage : StorageKind

-- What the handlers of the handshake see: the socket opens (and whether the join can be sent), a
-- text, as the message it parses to, data that is no text, an error, a close with its code; or the
-- timeout runs out.
pub data Sight : Type 0 where
  opens : Bool → Sight
  text : Option ServerMessage → Sight
  no_text ws_error time_over : Sight
  closes : ℕ → Sight

abbrev pub or_else : Option Text → Option Text → Option Text
or_else none b = b
or_else (some a) b = some a

-- The first message: a claim, or a join with the given token or else the stored one.
unfoldable pub join_message : ConnectOptions → Stores → ClientMessage
join_message opts stores = elim opts.claim_player_id [
  | some player_id ↦ claim_slot opts.code player_id opts.app_id
  | none ↦
      join opts.code opts.app_id
        (or_else opts.resume_token (load stores opts.storage_key opts.storage)) opts.create
]

-- The first result wins; none is a handshake that still waits.
unfoldable pub first_result : Text → List Sight → Option (Outcome LobbyError JoinedMsg)
first_result url [] = none
first_result url (opens true ∷ rest) = first_result url rest
first_result url (opens false ∷ rest) =
    some (err (new (codes "connection-failed") (codes "cannot send join: ")))
first_result url (text (some (joined msg)) ∷ rest) = some (ok msg)
first_result url (text (some (error code message)) ∷ rest) = some (err (new code message))
first_result url (text (some msg) ∷ rest) = first_result url rest
first_result url (text none ∷ rest) =
    some (err (new (codes "invalid-message") (codes "server sent malformed JSON")))
first_result url (no_text ∷ rest) = first_result url rest
first_result url (ws_error ∷ rest) =
    some (err (new (codes "connection-failed") (codes "WebSocket error on " ++ url)))
first_result url (closes code ∷ rest) = some (
    err (
      new (codes "connection-closed")
        (codes "connection closed before join completed (" ++ (decimal code ++ codes ")"))))
first_result url (time_over ∷ rest) =
    some (err (new (codes "connect-timeout") (codes "timed out connecting to " ++ url)))

-- The state at the end of `connect`, before the first offers.
unfoldable pub new_inner : ConnectOptions → JoinedMsg → Inner
new_inner opts msg = record {
  self_id = msg.self_id;
  max_players = msg.max_players;
  roster = roster_from_snapshot msg.max_players msg.players;
  started = msg.started;
  closed = false;
  fatal_seen = false;
  peers = [];
  links = [];
  rebuild_counts = [];
  epoch_counter = 0;
  ice_servers = msg.ice_servers ++ opts.ice_servers;
  force_relay = opts.force_relay;
  storage_key = opts.storage_key;
  storage_kind = opts.storage;
  link_waiters = [];
  send_queues = [];
  handlers = true;
  mail = [];
  next_waiter = 0;
  tasks = [];
  log = [];
}

-- `slot.id != self_id && slot.occupied && slot.connected && self_id < slot.id`
abbrev pub is_target : ℕ → PlayerInfo → Bool
is_target self_id p = (not (p.id == self_id) && (p.occupied && p.connected)) && ltb self_id p.id

-- Each offer has its own answers of the browser.
unfoldable pub offer_all : Inner → (ℕ → Web) → ℕ → List PlayerInfo → Inner
offer_all a web self_id [] = a
offer_all a web self_id (p ∷ roster) =
    offer_all (if is_target self_id p then initiate_peer a (web p.id) p.id else a) web self_id
      roster

-- A connected game, the state behind it, the storage after it, and the message that was sent.
pub record Connected : Type 0 where
  pub game : Game
  pub inner : Inner
  pub stores : Stores
  pub sent : ClientMessage

unfoldable pub set_up : ConnectOptions → Stores → (ℕ → Web) → JoinedMsg → Connected
set_up opts stores web msg = record {
  game = record {
    code = msg.code;
    self_id = msg.self_id;
    max_players = msg.max_players;
    resume_token = msg.resume_token;
    ice_servers = msg.ice_servers ++ opts.ice_servers;
  };
  inner =
      offer_all (new_inner opts msg) web msg.self_id
        (roster_from_snapshot msg.max_players msg.players);
  stores = save stores opts.storage_key opts.storage msg.resume_token;
  sent = join_message opts stores;
}

abbrev cannot_open : Text → LobbyError
cannot_open url = new (codes "connection-failed") (codes "cannot open " ++ (url ++ codes ": "))

-- The end of the handshake.
abbrev after_handshake :
    {A : Type 0}
    → Option (Outcome LobbyError JoinedMsg)
    → (JoinedMsg → A)
    → Option (Outcome LobbyError A)
after_handshake none done = none
after_handshake (some r) done = some (r >>= λ msg. ok (done msg))

-- `P2PGame::connect`; none is a call that still waits.
unfoldable pub connect :
    ConnectOptions → Stores → (ℕ → Web) → Bool → List Sight → Option (Outcome LobbyError Connected)
connect opts stores web socket_ok sights = elim (validate_code opts.code) [
  | err e ↦ some (err e)
  | panic ↦ some panic
  | ok valid ↦ elim (signaling_url opts.server) [
    | err e ↦ some (err e)
    | panic ↦ some panic
    | ok url ↦
        if not socket_ok
        then some (err (cannot_open url))
        else after_handshake (first_result url sights) (set_up opts stores web)
  ]
]
