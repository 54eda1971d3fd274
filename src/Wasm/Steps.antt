-- ===== src/Wasm/Steps.antt =====
-- What can happen next in the program of clients/rust/src/wasm: a handler of the browser or a call
-- of the API runs, or a task goes on from where it stands. Any order is possible.
use lobbylink.Base.{ℕ, ◌≡◌, Bool, true, List, ◌∷◌, ◌++◌, Option, if◌then◌else◌, ◌||◌, is_some}
use lobbylink.Base.Map
use lobbylink.Base.Outcome.{Outcome, ok, err, panic}
use lobbylink.Error.{LobbyError}
use lobbylink.Protocol.{ServerMessage, answer}
use lobbylink.Protocol.Values.{Json}
use lobbylink.Wasm.{
  Task, offer_start, offer_created, offer_set, signal_start, offer_applied, answer_created,
  answer_set, answer_applied, flushing, rebuild_sleep, pair_start, pair_stats, worker_start,
  link_wait, open_wait, drain_wait, Inner, Web, spawn,
}
use lobbylink.Wasm.Signals.{
  offer_made, send_offer, send_local, flush_list, offer_taken, answer_made, answer_taken,
  handle_signal,
}
use lobbylink.Wasm.Lobby.{on_ws_message, on_ws_close, shutdown}
use lobbylink.Wasm.Callbacks.{
  Incoming, retry_peer, on_ice_candidate, on_state, on_reliable, on_best_effort, on_channel, on_low,
  report_pair,
}
use lobbylink.Wasm.Sends.{drain_turn, send_from, open_known, link_known}
use lobbylink.Wasm.Worker.{run_worker, settle}
use lobbylink.Wasm.Game.{Game, game_send_best_effort, game_broadcast, game_send_reliable}

-- A task that awaits a oneshot goes on when something was sent or the timeout is over.
unfoldable pub is_ready : Inner → Web → Task → Bool
is_ready a web (link_wait to job waiter) = is_some (Map.get a.mail waiter) || web.timed_out
is_ready a web (open_wait to job epoch waiter) = is_some (Map.get a.mail waiter) || web.timed_out
is_ready a web (drain_wait s waiter) = is_some (Map.get a.mail waiter) || web.timed_out
is_ready a web t = true

-- A task goes on; it is no longer among the tasks.
unfoldable pub resume : Inner → Web → Task → Inner
resume a web (offer_start epoch) = spawn a (offer_created epoch)
resume a web (offer_created epoch) = offer_made a web epoch
resume a web (offer_set epoch) = send_offer a web epoch
resume a web (signal_start from payload) = handle_signal a web from payload
resume a web (offer_applied epoch from) = offer_taken a web epoch from
resume a web (answer_created epoch from) = answer_made a web epoch from
resume a web (answer_set epoch from) = send_local a web epoch from answer
resume a web (answer_applied epoch) = answer_taken a web epoch
resume a web (flushing epoch cs after) = flush_list a web epoch cs after
resume a web (rebuild_sleep player_id epoch) = retry_peer a web player_id epoch
resume a web (pair_start epoch) = spawn a (pair_stats epoch)
resume a web (pair_stats epoch) = report_pair a web epoch
resume a web (worker_start to) = run_worker a web to
resume a web (link_wait to job waiter) =
    settle web to job (link_known a web to job (Map.get a.mail waiter))
resume a web (open_wait to job epoch waiter) =
    settle web to job (open_known a web to job epoch (Map.get a.mail waiter))
resume a web (drain_wait s waiter) =
    settle web s.to s.job (send_from a web s (drain_turn a web s s.seq) s.left s.seq)

pub data Arrival : Type 0 where
  ws_message : Option ServerMessage → Arrival
  ws_closed : Arrival
  ice_candidate : ℕ → Option Json → Arrival
  state_changed buffer_low : ℕ → Arrival
  reliable_data best_effort_data : ℕ → Incoming → Arrival
  channel_event : ℕ → Bool → Arrival
  send_best_effort : ℕ → List ℕ → Arrival
  broadcast : List ℕ → Arrival
  send_reliable : ℕ → List ℕ → ℕ → Arrival
  close : Arrival

-- A call that is refused changes nothing.
abbrev pub or_same : Inner → Outcome LobbyError Inner → Outcome ⊥ Inner
or_same a (ok a') = ok a'
or_same a (err e) = ok a
or_same a panic = panic

-- The handlers of the WebSocket are detached when the game closes.
unfoldable pub handle : Game → Inner → Web → Arrival → Outcome ⊥ Inner
handle game a web (ws_message msg) = ok (if a.handlers then on_ws_message a web msg else a)
handle game a web ws_closed = ok (if a.handlers then on_ws_close a else a)
handle game a web (ice_candidate epoch c) = ok (on_ice_candidate a web epoch c)
handle game a web (state_changed epoch) = ok (on_state a web epoch)
handle game a web (buffer_low epoch) = ok (on_low a epoch)
handle game a web (reliable_data epoch incoming) = on_reliable a web epoch incoming
handle game a web (best_effort_data epoch incoming) = ok (on_best_effort a epoch incoming)
handle game a web (channel_event epoch is_open) = ok (on_channel a epoch is_open)
handle game a web (send_best_effort to bytes) =
    or_same a (game_send_best_effort game a web to bytes)
handle game a web (broadcast bytes) = or_same a (game_broadcast game a web bytes)
handle game a web (send_reliable to bytes done) =
    or_same a (game_send_reliable game a to bytes done)
handle game a web close = ok (shutdown a web)

-- One step of the program.
pub data Step (game : Game) (a : Inner) : Inner → Type 0 where
  arrives :
      (web : Web) (arrival : Arrival) (next : Inner)
      → handle game a web arrival ≡ ok next
      → Step game a next
  resumes :
      (web : Web) (t : Task) (before after : List Task)
      → a.tasks ≡ before ++ (t ∷ after)
      → is_ready a web t ≡ true
      → Step game a (resume (record a { tasks = before ++ after }) web t)

pub data Reachable (game : Game) (first : Inner) : Inner → Type 0 where
  start : Reachable game first first
  later : {a b : Inner} → Reachable game first a → Step game a b → Reachable game first b
