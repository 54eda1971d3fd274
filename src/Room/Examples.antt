-- ===== src/Room/Examples.antt =====
-- The room on both backends: player 1 in a room of two, where player 0 goes and comes back.
use lobbylink.Base.{◌≡◌, refl, true, false, List, [], ◌∷◌, none, some, codes}
use lobbylink.Options.{local}
use lobbylink.Protocol.{ServerMessage, JoinedMsg, player_left, player_rejoined, error}
use lobbylink.Roster.{PlayerInfo, roster_from_snapshot, fill_slots, empty_slots, modify}
use lobbylink.Roster.Laws.{roster_from_snapshot-IsRoster}
use lobbylink.Native.Link as LinkOf
use lobbylink.Native.Actor.{Rtc, Actor, new_actor, ConnectionState, SignalingState}
use lobbylink.Native.Actor.Loop as Native
use lobbylink.Native.Actor.Invariant as ActorOf
use lobbylink.Native.Actor.Invariant.Reachable.{starting, Reachable-IsSound}
use lobbylink.Wasm.{Inner, Web, open_channel}
use lobbylink.Wasm as WasmOf
use lobbylink.Wasm.Game.{ConnectOptions, set_up, offer_all, new_inner}
use lobbylink.Wasm.Game.Storage.{Stores}
use lobbylink.Wasm.Steps.{start}
use lobbylink.Wasm.Invariant as BrowserOf
use lobbylink.Wasm.Runs.{reachable-IsFine}
use lobbylink.Native.Actor.Unseen as ActorEvents
use lobbylink.Wasm.Unseen as BrowserEvents
use lobbylink.Room.{messages, room_after}
use lobbylink.Room.Actor.{actor_room, run_actor, run_actor_refines}
use lobbylink.Room.Browser.{browser_room, run_browser, run_browser_refines}
use lobbylink.Room.Same.{backends_agree}

abbrev rtc : Rtc
rtc = record {
  new_link_ok = true;
  create_offer_ok = true;
  create_answer_ok = true;
  set_local_ok = true;
  local_description = some (codes "v=0");
  sdp_ok = λ sdp. true;
  set_remote_ok = true;
  candidate_ok = λ candidate. true;
  connection_state = λ epoch. ConnectionState.failed;
  state_text = λ state. codes "failed";
  signaling_state = λ epoch. SignalingState.have_local_offer;
  best_effort_state = λ epoch. LinkOf.ChannelState.open_channel;
  now_ms = 1000;
}

abbrev options : ConnectOptions
options = record {
  server = codes "wss://lobby";
  app_id = none;
  code = codes "ABCD";
  create = none;
  resume_token = none;
  claim_player_id = none;
  ice_servers = [];
  force_relay = false;
  storage_key = none;
  storage = local;
}

abbrev stores : Stores
stores = record { local_storage = none; session_storage = none }

abbrev first_joined : JoinedMsg
first_joined = record {
  code = codes "ABCD";
  self_id = 1;
  max_players = 2;
  started = false;
  resume_token = codes "t";
  players =
      record { id = 0; occupied = true; connected = true }
      ∷ record { id = 1; occupied = true; connected = true }
      ∷ [];
  ice_servers = [];
}

abbrev browser : Web
browser = record {
  ws_open = true;
  config_ok = true;
  connection_ok = true;
  fulfilled = true;
  local_description = some (codes "v=0");
  candidate_ok = λ c. true;
  signaling_state = λ e. WasmOf.SignalingState.have_local_offer;
  connection_state = λ e. codes "failed";
  reliable_state = λ e. open_channel;
  buffered_amount = λ caller seq. 0;
  send_ok = λ caller seq. true;
  best_effort_state = λ e. open_channel;
  best_effort_buffered = λ e. 0;
  stats = [];
  timed_out = false;
  now_ms = 1000;
}

abbrev joined_game : Inner
joined_game = (set_up options stores (λ id. browser) first_joined).inner

abbrev roster : List PlayerInfo
roster = roster_from_snapshot 2 first_joined.players

abbrev actor : Actor
actor = Native.start (new_actor 1 2 roster false [] false none true) (λ id. rtc)

actor-IsSound : ActorOf.IsSound 1 2 actor
actor-IsSound =
    Reachable-IsSound 1 2 roster false [] false none true (λ id. rtc) _
      (roster_from_snapshot-IsRoster 2 first_joined.players) starting

joined_game-IsSound : BrowserOf.IsSound 1 2 joined_game
joined_game-IsSound =
    (reachable-IsFine options stores (λ id. browser) first_joined joined_game start).0

actor_open : actor.closed ≡ false
unfolding Native.start Native.offer_all new_actor roster_from_snapshot fill_slots empty_slots modify
actor_open = refl

game_open : joined_game.closed ≡ false
unfolding set_up offer_all new_inner roster_from_snapshot fill_slots empty_slots modify
game_open = refl

abbrev heard : List ServerMessage
heard = player_left 0 (codes "disconnected") ∷ player_rejoined 0 false ∷ error (codes "bad") [] ∷ []

abbrev with_answers {ℓ} : {A : Type ℓ} → A → List ServerMessage → List (A × ServerMessage)
with_answers answers [] = []
with_answers answers (msg ∷ msgs) = (answers, msg) ∷ with_answers answers msgs

run_actor_refines_example :
    actor_room (run_actor actor (with_answers rtc heard))
    ≡ room_after (actor_room actor) (messages (with_answers rtc heard))
run_actor_refines_example =
    run_actor_refines (with_answers rtc heard) actor actor-IsSound actor_open

run_browser_refines_example :
    browser_room (run_browser joined_game (with_answers browser heard))
    ≡ room_after (browser_room joined_game) (messages (with_answers browser heard))
run_browser_refines_example =
    run_browser_refines (with_answers browser heard) joined_game joined_game-IsSound game_open

same_room : actor_room actor ≡ browser_room joined_game
unfolding Native.start Native.offer_all new_actor set_up offer_all new_inner roster_from_snapshot
    fill_slots empty_slots modify ActorEvents.events BrowserEvents.events
same_room = refl

backends_agree_example :
    actor_room (run_actor actor (with_answers rtc heard))
    ≡ browser_room (run_browser joined_game (with_answers browser heard))
unfolding messages
backends_agree_example =
    backends_agree actor joined_game (with_answers rtc heard) (with_answers browser heard)
      actor-IsSound joined_game-IsSound actor_open game_open same_room refl
