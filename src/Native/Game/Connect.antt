-- ===== src/Native/Game/Connect.antt =====
-- clients/rust/src/native/mod.rs: `P2PGame::connect` and the task that reads the WebSocket. What
-- tungstenite and serde_json give is a list of items; the texts of their own errors are left out.
use lobbylink.Base.{
  ℕ, Bool, List, [], ◌∷◌, ◌++◌, Option, none, some, not, ◌&&◌, Text, codes, text_eq, map,
}
use lobbylink.Base.Outcome.{Outcome, ok, err, panic, ◌>>=◌, ◌>>◌, reject_if}
use lobbylink.Error.{LobbyError, new}
use lobbylink.Options.{CreateOptions, validate_code}
use lobbylink.Protocol.{
  ClientMessage, join, claim_slot, IceServer, JoinedMsg, ServerMessage, joined, error,
}
use lobbylink.Roster.{roster_from_snapshot}
use lobbylink.Url.{signaling_url, default_origin}
use lobbylink.Native.Link.{Stop, failed, waiting}
use lobbylink.Native.Actor.{Actor, new_actor}
use lobbylink.Native.Actor.Messages.{Internal, ws, ws_closed}
use lobbylink.Native.Game.{Game}
use lobbylink.Native.Game.Storage.{Files, load, save}

pub record ConnectOptions : Type 0 where
  pub server : Text
  pub app_id : Option Text
  pub code : Text
  pub create : Option CreateOptions
  pub resume_token : Option Text
  pub claim_player_id : Option ℕ
  pub ice_servers : List IceServer
  pub force_relay : Bool
  pub storage_path : Option Text
  pub disable_keepalive : Bool
  pub origin : Option Text

-- What `ws_rx.next()` gives: a text, as the message it parses to, a close with its code, another
-- frame, an error, or the end; or the timeout around the handshake runs out.
pub data Item : Type 0 where
  text : Option ServerMessage → Item
  closing : Option Text → Item
  other_frame ws_error ws_end time_over : Item

-- A step of the handshake is done, is refused, or takes longer than the timeout.
pub data Attempt : Type 0 where
  done refused late : Attempt

-- Whether the request, its Origin header, the connection and the first message go well.
pub record Net : Type 0 where
  pub request_ok : Bool
  pub origin_ok : Bool
  pub opened : Attempt
  pub sent : Attempt
  pub items : List Item

abbrev pub or_else : Option Text → Option Text → Option Text
or_else none b = b
or_else (some a) b = some a

-- The first message: a claim, or a join with the given token or else the stored one.
unfoldable pub join_message : ConnectOptions → Files → ClientMessage
join_message opts files = elim opts.claim_player_id [
  | some player_id ↦ claim_slot opts.code player_id opts.app_id
  | none ↦
      join opts.code opts.app_id (or_else opts.resume_token (load files opts.storage_path))
        opts.create
]

abbrev fail {ℓ} : {A : Type ℓ} → Text → Text → Outcome Stop A
fail code message = err (failed (new code message))

abbrev closed_with : Option Text → Text
closed_with none = codes "connection closed before join completed ()"
closed_with (some code) = codes "connection closed before join completed (" ++ (code ++ codes ")")

abbrev connect_timeout : Text → Stop
connect_timeout url =
    failed (new (codes "connect-timeout") (codes "timed out connecting to " ++ url))

-- The loop that waits for "joined".
unfoldable pub await_joined : Text → List Item → Outcome Stop (JoinedMsg × List Item)
await_joined url [] = err waiting
await_joined url (text (some (joined msg)) ∷ rest) = ok (msg, rest)
await_joined url (text (some (error code message)) ∷ rest) = fail code message
await_joined url (text (some msg) ∷ rest) = await_joined url rest
await_joined url (text none ∷ rest) =
    fail (codes "invalid-message") (codes "server sent malformed JSON")
await_joined url (closing code ∷ rest) = fail (codes "connection-closed") (closed_with code)
await_joined url (other_frame ∷ rest) = await_joined url rest
await_joined url (ws_error ∷ rest) =
    fail (codes "connection-failed") (codes "WebSocket error on " ++ (url ++ codes ": "))
await_joined url (ws_end ∷ rest) =
    fail (codes "connection-closed") (codes "connection closed before join completed")
await_joined url (time_over ∷ rest) = err (connect_timeout url)

abbrev attempt : Attempt → Text → Stop → Outcome Stop (Unit {0})
attempt done url refusal = ok tt
attempt refused url refusal = err refusal
attempt late url refusal = err (connect_timeout url)

abbrev or_empty : Option Text → Text
or_empty none = []
or_empty (some s) = s

-- The entry for the webrtc crate.
abbrev pub rtc_server : IceServer → IceServer
rtc_server s = record {
  urls = s.urls;
  username = some (or_empty s.username);
  credential = some (or_empty s.credential);
}

abbrev unwrap_origin : Option Text → Text → Text
unwrap_origin none url = default_origin url
unwrap_origin (some origin) url = origin

abbrev lift {ℓ} : {A : Type ℓ} → Outcome LobbyError A → Outcome Stop A
lift (ok a) = ok a
lift (err e) = err (failed e)
lift panic = panic

abbrev bad_request : Text → Stop
bad_request url =
    failed (new (codes "invalid-server-url") (codes "cannot request " ++ (url ++ codes ": ")))

abbrev bad_origin : Text → Stop
bad_origin origin = failed (new (codes "invalid-server-url") (codes "invalid origin: " ++ origin))

abbrev cannot_open : Text → Stop
cannot_open url =
    failed (new (codes "connection-failed") (codes "cannot open " ++ (url ++ codes ": ")))

abbrev cannot_send : Text → Stop
cannot_send url =
    failed (new (codes "connection-failed") (codes "WebSocket error on " ++ (url ++ codes ": ")))

-- A connected game: what `connect` returns, the actor it starts, the files after it, the message it
-- sent, and what is left to read.
pub record Connected : Type 0 where
  pub game : Game
  pub actor : Actor
  pub files : Files
  pub sent : ClientMessage
  pub left : List Item

-- The end of `connect`, with the joined message.
unfoldable pub set_up : ConnectOptions → Files → Bool → JoinedMsg → List Item → Connected
set_up opts files can_write msg left = record {
  game = record {
    code = msg.code;
    self_id = msg.self_id;
    max_players = msg.max_players;
    resume_token = msg.resume_token;
    ice_servers = msg.ice_servers ++ opts.ice_servers;
  };
  actor =
      new_actor msg.self_id msg.max_players (roster_from_snapshot msg.max_players msg.players)
        msg.started (map rtc_server (msg.ice_servers ++ opts.ice_servers)) opts.force_relay
        opts.storage_path (not opts.disable_keepalive);
  files = save files can_write opts.storage_path msg.resume_token;
  sent = join_message opts files;
  left = left;
}

-- `connect` up to the wait for "joined": the URL, with the first message sent.
unfoldable pub open_socket : ConnectOptions → Net → Outcome Stop Text
open_socket opts net = do
  lift (validate_code opts.code)
  url ← lift (signaling_url opts.server)
  let origin = unwrap_origin opts.origin url
  reject_if (not net.request_ok) (bad_request url)
  reject_if (not (text_eq origin []) && not net.origin_ok) (bad_origin origin)
  attempt net.opened url (cannot_open url)
  attempt net.sent url (cannot_send url)
  ok url

unfoldable pub connect : ConnectOptions → Files → Bool → Net → Outcome Stop Connected
connect opts files can_write net = do
  url ← open_socket opts net
  (msg, left) ← await_joined url net.items
  ok (set_up opts files can_write msg left)

-- The reader task: what it sends to the actor, which is there as long as it reads.
unfoldable pub reader : List Item → List Internal
reader [] = []
reader (text (some msg) ∷ rest) = ws msg ∷ reader rest
reader (text none ∷ rest) = reader rest
reader (closing code ∷ rest) = ws_closed ∷ []
reader (other_frame ∷ rest) = reader rest
reader (ws_error ∷ rest) = ws_closed ∷ []
reader (ws_end ∷ rest) = ws_closed ∷ []
reader (time_over ∷ rest) = reader rest
