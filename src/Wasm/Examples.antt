-- ===== src/Wasm/Examples.antt =====
-- The browser backend: the theorems in a room of two, which player 0 joins when player 1 is there.
use lobbylink.Base.{◌≡◌, refl, true, false, [], ◌∷◌, none, some, codes, text_eq, length, ◌<◌, arith}
use lobbylink.Options.{local}
use lobbylink.Protocol.{JoinedMsg}
use lobbylink.Base.Map
use lobbylink.Events as EventsOf
use lobbylink.Roster.{roster_from_snapshot, fill_slots, empty_slots, modify}
use lobbylink.Wasm.{Inner, Web, open_channel, emit, sleep, event, open_connection}
use lobbylink.Wasm.Links.{
  create_link, add_link, close_peer, close_link, close_links, values, drop_waiters, drop_queues,
  deliver, teardown_peers,
}
use lobbylink.Wasm.Signals.{initiate_peer}
use lobbylink.Wasm.Lobby.{shutdown}
use lobbylink.Wasm.Callbacks.{on_state, handle_peer_failure, count_failure, rebuilds}
use lobbylink.Wasm as WasmOf
use lobbylink.Wasm.Game.{Game, ConnectOptions, set_up, offer_all, new_inner}
use lobbylink.Wasm.Game.Storage.{Stores}
use lobbylink.Wasm.Steps.{Reachable, start, later, arrives, handle, close, state_changed}
use lobbylink.Wasm.Closing.{shown}
use lobbylink.Wasm.Reachable.{IsFine}
use lobbylink.Wasm.Worker.{queue_reliable, worker, run_worker}
use lobbylink.Wasm.Rounds.{waiting, run_worker_bound}
use lobbylink.Wasm.Runs.{reachable-IsFine, closed_for_good}

abbrev options : ConnectOptions
options = record {
  server = codes "wss://lobby";
  app_id = none;
  code = codes "ABCD";
  create = none;
  resume_token = none;
  claim_player_id = none;
  ice_servers = [];
  force_relay = false;
  storage_key = none;
  storage = local;
}

abbrev stores : Stores
stores = record { local_storage = none; session_storage = none }

abbrev first_joined : JoinedMsg
first_joined = record {
  code = codes "ABCD";
  self_id = 0;
  max_players = 2;
  started = false;
  resume_token = codes "t";
  players =
      record { id = 0; occupied = true; connected = true }
      ∷ record { id = 1; occupied = true; connected = true }
      ∷ [];
  ice_servers = [];
}

abbrev browser : Web
browser = record {
  ws_open = true;
  config_ok = true;
  connection_ok = true;
  fulfilled = true;
  local_description = some (codes "v=0");
  candidate_ok = λ c. true;
  signaling_state = λ e. WasmOf.SignalingState.have_local_offer;
  connection_state = λ e. codes "failed";
  reliable_state = λ e. open_channel;
  buffered_amount = λ caller seq. 0;
  send_ok = λ caller seq. true;
  best_effort_state = λ e. open_channel;
  best_effort_buffered = λ e. 0;
  stats = [];
  timed_out = false;
  now_ms = 1000;
}

abbrev joined_game : Inner
joined_game = (set_up options stores (λ id. browser) first_joined).inner

abbrev game : Game
game = (set_up options stores (λ id. browser) first_joined).game

-- The link to player 1 fails once, and the game is closed.
abbrev failed_game : Inner
failed_game = on_state joined_game browser 1

abbrev closed_game : Inner
closed_game = shutdown failed_game browser

failed_run : Reachable game joined_game failed_game
unfolding handle
failed_run = later start (arrives browser (state_changed 1) failed_game refl)

closed_run : Reachable game joined_game closed_game
unfolding handle
closed_run = later failed_run (arrives browser close closed_game refl)

-- The link was made and the failure was noted.
failed_game_log :
    failed_game.log
    ≡ sleep 1 1 1000
      ∷ event (EventsOf.Event.peer_state 1 (codes "failed"))
      ∷ open_connection 1 [] false
      ∷ []
unfolding on_state set_up offer_all new_inner roster_from_snapshot fill_slots empty_slots modify
    initiate_peer create_link add_link close_peer handle_peer_failure count_failure rebuilds emit
    Map.get Map.remove Map.insert deliver text_eq
failed_game_log = refl

reachable-IsFine_example : IsFine 0 2 failed_game
reachable-IsFine_example =
    reachable-IsFine options stores (λ id. browser) first_joined failed_game failed_run

closed_game_closed : closed_game.closed ≡ true
unfolding shutdown teardown_peers on_state set_up offer_all new_inner roster_from_snapshot
    fill_slots empty_slots modify initiate_peer create_link add_link close_peer close_links
    close_link values drop_waiters drop_queues handle_peer_failure count_failure rebuilds emit
    Map.get Map.remove Map.insert deliver text_eq
closed_game_closed = refl

closed_for_good_example :
    ((on_state closed_game browser 1).closed ≡ true)
    × (shown (on_state closed_game browser 1).log ≡ shown closed_game.log)
unfolding handle
closed_for_good_example =
    closed_for_good options stores (λ id. browser) first_joined closed_game
      (on_state closed_game browser 1) closed_run closed_game_closed
      (later start (arrives browser (state_changed 1) (on_state closed_game browser 1) refl))

-- Two messages for player 1 wait for the worker.
abbrev queued_game : Inner
queued_game =
    queue_reliable (queue_reliable joined_game 1 (record { bytes = 7 ∷ []; done = 0 })) 1
      (record { bytes = 8 ∷ []; done = 1 })

two_waiting : length (waiting queued_game 1) < 10
unfolding queue_reliable set_up offer_all new_inner roster_from_snapshot fill_slots empty_slots
    modify initiate_peer create_link add_link close_peer Map.get Map.remove Map.insert deliver
two_waiting = omega arith

run_worker_bound_example : worker 10 queued_game browser 1 ≡ run_worker queued_game browser 1
run_worker_bound_example = run_worker_bound 10 queued_game browser 1 two_waiting
