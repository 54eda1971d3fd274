-- ===== src/Native/Game/Examples.antt =====
-- The API: the theorems at one game of three players.
use lobbylink.Base.{
  ℕ, ◌≤◌, ◌<◌, ◌≡◌, ◌≢◌, ◌↔◌, refl, true, false, [], ◌∷◌, ◌++◌, none, some, map, Text, codes,
  text_eq,
}
use lobbylink.Base.Outcome.{ok, err, panic}
use lobbylink.Error.{LobbyError}
use lobbylink.Framing.{max_reliable_message}
use lobbylink.Options.{validate_code, all_code_bytes}
use lobbylink.Protocol.{JoinedMsg, joined, room_started, unknown_message}
use lobbylink.Url.{
  split_once, strip_prefix, ws_scheme_of, build_url, before_byte, ends_with, trim_end_matches,
  from_byte, signaling_url, default_origin,
}
use lobbylink.Native.Actor.{Rtc, Shared, ConnectionState, SignalingState}
use lobbylink.Native.Actor.Loop.{start}
use lobbylink.Native.Actor.Invariant.{IsSound}
use lobbylink.Native.Actor.Invariant.Reachable.{starting}
use lobbylink.Native.Actor.Messages.{send_reliable, ws, ws_closed}
use lobbylink.Native.Link.{open_channel}
use lobbylink.Native.Game.{Game, is_occupied, game_send_reliable}
use lobbylink.Native.Game.Storage.{
  Files, is_space, space_bytes, skip_spaces, trim_start, trim_end, trim, load, save, clear,
}
use lobbylink.Native.Game.Connect.{
  ConnectOptions, text, other_frame, ws_end, done, Net, Connected, await_joined, open_socket,
  set_up, connect, reader,
}
use lobbylink.Native.Game.Guards.{IsRefusal, game_send_reliable_exact}
use lobbylink.Native.Game.Tokens.{HasNoSpace, load-save}
use lobbylink.Native.Game.Joining.{IsJoined, connect-IsJoined, connect-IsSound}
use lobbylink.Native.Game.Reading.{messages_in, reader_exact}

abbrev game : Game
game = record {
  code = codes "ROOM";
  self_id = 1;
  max_players = 3;
  resume_token = codes "tok";
  ice_servers = [];
}

abbrev shared : Shared
shared = record {
  started = true;
  closed = false;
  roster =
      record { id = 0; occupied = true; connected = true }
      ∷ record { id = 1; occupied = true; connected = true }
      ∷ record { id = 2; occupied = false; connected = false }
      ∷ [];
}

game_send_reliable_exact_example :
    ((game_send_reliable game shared true 0 (7 ∷ []) 5 ≡ ok (send_reliable 0 (7 ∷ []) 5)) ↔ (
      (0 < 3)
      × (◌≢◌ {A = ℕ} 0 1)
      × (false ≡ false)
      × (is_occupied shared.roster 0 ≡ true)
      × (1 ≤ max_reliable_message)
      × (true ≡ true)))
    × ((e : LobbyError)
        → game_send_reliable game shared true 0 (7 ∷ []) 5 ≡ err e
        → IsRefusal e.code)
    × (game_send_reliable game shared true 0 (7 ∷ []) 5 ≢ panic)
game_send_reliable_exact_example = game_send_reliable_exact game shared true 0 (7 ∷ []) 5

abbrev no_files : Files
no_files = λ p. none

abbrev path : Text
path = codes "game.token"

tok-HasNoSpace : HasNoSpace (codes "tok")
unfolding space_bytes is_space
tok-HasNoSpace = (refl, (refl, (refl, tt)))

-- A no-break space, a token, an ideographic space and a line feed.
trim_wide : trim (194 ∷ 160 ∷ b't' ∷ b' ' ∷ b'k' ∷ 227 ∷ 128 ∷ 128 ∷ 10 ∷ []) ≡ codes "t k"
unfolding trim trim_start trim_end skip_spaces space_bytes is_space text_eq
trim_wide = refl

-- A character that is no space, whatever its last two bytes would be alone.
trim_keeps : trim (229 ∷ 128 ∷ 137 ∷ []) ≡ 229 ∷ 128 ∷ 137 ∷ []
unfolding trim trim_start trim_end skip_spaces space_bytes is_space text_eq
trim_keeps = refl

load-save_example :
    (load (save no_files true (some path) (codes "tok")) (some path) ≡ some (codes "tok"))
    × (load (clear (save no_files true (some path) (codes "tok")) true (some path)) (some path)
        ≡ none)
    × ((p : Text)
        → p ≢ path
        → (save no_files true (some path) (codes "tok") p ≡ none)
          × (clear no_files true (some path) p ≡ none))
load-save_example = load-save no_files path (codes "tok") (λ e. cc) tok-HasNoSpace

abbrev opts : ConnectOptions
opts = record {
  server = codes "https://play.example";
  app_id = none;
  code = codes "ROOM";
  create = none;
  resume_token = none;
  claim_player_id = none;
  ice_servers = [];
  force_relay = false;
  storage_path = some path;
  disable_keepalive = false;
  origin = none;
}

abbrev msg : JoinedMsg
msg = record {
  code = codes "ROOM";
  self_id = 1;
  max_players = 3;
  started = false;
  resume_token = codes "tok";
  players = record { id = 2; occupied = true; connected = true } ∷ [];
  ice_servers = [];
}

abbrev net : Net
net = record {
  request_ok = true;
  origin_ok = true;
  opened = done;
  sent = done;
  items =
      other_frame
      ∷ text (some room_started)
      ∷ text (some (joined msg))
      ∷ text (some room_started)
      ∷ [];
}

abbrev connected : Connected
connected = set_up opts no_files true msg (text (some room_started) ∷ [])

connects : connect opts no_files true net ≡ ok connected
unfolding connect open_socket await_joined validate_code all_code_bytes signaling_url split_once
    strip_prefix ws_scheme_of text_eq build_url before_byte ends_with trim_end_matches from_byte
    default_origin
connects = refl

connect-IsJoined_example : (m : JoinedMsg) × IsJoined opts no_files true net m connected
connect-IsJoined_example = connect-IsJoined opts no_files true net connected connects

abbrev rtc : Rtc
rtc = record {
  new_link_ok = true;
  create_offer_ok = true;
  create_answer_ok = true;
  set_local_ok = true;
  local_description = some (codes "v=0");
  sdp_ok = λ sdp. true;
  set_remote_ok = true;
  candidate_ok = λ candidate. true;
  connection_state = λ epoch. ConnectionState.failed;
  state_text = λ state. codes "failed";
  signaling_state = λ epoch. SignalingState.stable;
  best_effort_state = λ epoch. open_channel;
  now_ms = 1000;
}

connect-IsSound_example :
    IsSound connected.game.self_id connected.game.max_players (start connected.actor (λ id. rtc))
connect-IsSound_example =
    connect-IsSound opts no_files true net connected (λ id. rtc)
      (record { actor = start connected.actor (λ id. rtc); signaling_open = true; stopped = false })
      connects starting

reader_exact_example :
    reader
      ((text (some room_started) ∷ text none ∷ []) ++ (ws_end ∷ text (some unknown_message) ∷ []))
    ≡ map ws (messages_in (text (some room_started) ∷ text none ∷ [])) ++ (ws_closed ∷ [])
reader_exact_example =
    reader_exact (text (some room_started) ∷ text none ∷ []) ws_end
      (text (some unknown_message) ∷ []) (tt, (tt, tt)) tt
