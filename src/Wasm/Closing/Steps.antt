-- ===== src/Wasm/Closing/Steps.antt =====
-- Everything that can happen after the game is closed.
use lobbylink.Base.{ℕ, ltb, length, ◌≡◌, List, ◌++◌, arith, if_both, if_cases, sym}
use lobbylink.Base.Map
use lobbylink.Base.Outcome.{Outcome, ok, err, panic, ok-injective, reject_if, >>=_cases}
use lobbylink.Error.{LobbyError, max_best_effort}
use lobbylink.Protocol.{answer}
use lobbylink.Roster.{check_target}
use lobbylink.Wasm.{
  Task, Output, offer_start, offer_created, offer_set, signal_start, offer_applied, answer_created,
  answer_set, answer_applied, flushing, rebuild_sleep, pair_start, pair_stats, worker_start,
  link_wait, open_wait, drain_wait, Inner, Web,
}
use lobbylink.Wasm.Links.{closed_error}
use lobbylink.Wasm.Callbacks.{report_pair}
use lobbylink.Wasm.Game.{Game, game_send_best_effort, game_broadcast, game_send_reliable}
use lobbylink.Wasm.Steps.{
  Arrival, ws_message, ws_closed, ice_candidate, state_changed, buffer_low, reliable_data,
  best_effort_data, channel_event, send_best_effort, broadcast, send_reliable, close, or_same,
  handle, resume, Step, arrives, resumes,
}
use lobbylink.Wasm.Closing.{
  IsShut, flush_list-IsShut, offer_made-IsShut, send_local-IsShut, send_offer-IsShut,
  offer_taken-IsShut, answer_made-IsShut, answer_taken-IsShut, handle_signal-IsShut,
}
use lobbylink.Wasm.Closing.Sends.{
  drained_send-IsShut, open_known-IsShut, link_known-IsShut, run_worker-IsShut, settle-IsShut,
}
use lobbylink.Wasm.Closing.Handlers.{
  OkShut, at_open-IsShut, no_retry, no_message, no_end, no_shutdown, no_candidate, no_state,
  no_datagram, no_data, low-IsShut, channel-IsShut,
}

module _ {effects : List Output} where
  resume-IsShut :
      (a : Inner) (web : Web) (t : Task) → IsShut effects a → IsShut effects (resume a web t)
  unfolding resume report_pair
  resume-IsShut a web (offer_start e) v = v
  resume-IsShut a web (offer_created e) v = offer_made-IsShut a web e v
  resume-IsShut a web (offer_set e) v = send_offer-IsShut a web e v
  resume-IsShut a web (signal_start from payload) v = handle_signal-IsShut a web from payload v
  resume-IsShut a web (offer_applied e from) v = offer_taken-IsShut a web e from v
  resume-IsShut a web (answer_created e from) v = answer_made-IsShut a web e from v
  resume-IsShut a web (answer_set e from) v = send_local-IsShut a web e from answer v
  resume-IsShut a web (answer_applied e) v = answer_taken-IsShut a web e v
  resume-IsShut a web (flushing e cs after) v = flush_list-IsShut a web e cs after v
  resume-IsShut a web (rebuild_sleep k e) v = no_retry a web k e v
  resume-IsShut a web (pair_start e) v = v
  resume-IsShut a web (pair_stats e) v = at_open-IsShut a e _ v
  resume-IsShut a web (worker_start to) v = run_worker-IsShut a web to v
  resume-IsShut a web (link_wait to job waiter) v =
      settle-IsShut web to job _ (link_known-IsShut a web to job (Map.get a.mail waiter) v)
  resume-IsShut a web (open_wait to job e waiter) v =
      settle-IsShut web to job _ (open_known-IsShut a web to job e (Map.get a.mail waiter) v)
  resume-IsShut a web (drain_wait s waiter) v =
      settle-IsShut web s.to s.job _ (drained_send-IsShut a web s v)

  -- A call of the API.
  or_same-IsShut :
      (a : Inner) (o : Outcome LobbyError Inner)
      → IsShut effects a
      → OkShut effects o
      → OkShut effects (or_same a o)
  or_same-IsShut a (ok a') v p = p
  or_same-IsShut a (err e) v p = v
  or_same-IsShut a panic v p = tt

  best_effort-IsShut :
      (game : Game) (a : Inner) (web : Web) (to : ℕ) (bytes : List ℕ)
      → IsShut effects a
      → OkShut effects (game_send_best_effort game a web to bytes)
  unfolding game_send_best_effort
  best_effort-IsShut game a web to bytes v =
      >>=_cases (OkShut effects) (check_target to game.self_id game.max_players) _
        (λ _ _.
          >>=_cases (OkShut effects) (reject_if (ltb max_best_effort (length bytes)) _) _
            (λ _ _.
              if_cases (IsShut effects) a.closed _ _ (λ _. v)
                (λ h. absurd (ground (arith, h, v.shut))))
            (λ e. tt) (λ _. tt))
        (λ e. tt) (λ _. tt)

  broadcast-IsShut :
      (game : Game) (a : Inner) (web : Web) (bytes : List ℕ)
      → IsShut effects a
      → OkShut effects (game_broadcast game a web bytes)
  unfolding game_broadcast
  broadcast-IsShut game a web bytes v =
      >>=_cases (OkShut effects) (reject_if (ltb max_best_effort (length bytes)) _) _
        (λ _ _.
          if_cases (IsShut effects) a.closed _ _ (λ _. v) (λ h. absurd (ground (arith, h, v.shut))))
        (λ e. tt) (λ _. tt)

  reliable-IsShut :
      (game : Game) (a : Inner) (to : ℕ) (bytes : List ℕ) (done : ℕ)
      → IsShut effects a
      → OkShut effects (game_send_reliable game a to bytes done)
  unfolding game_send_reliable
  reliable-IsShut game a to bytes done v =
      >>=_cases (OkShut effects) (check_target to game.self_id game.max_players) _
        (λ _ _.
          >>=_cases (OkShut effects) (reject_if a.closed closed_error) _
            (λ _ h. absurd (ground (arith, h, v.shut))) (λ e. tt) (λ _. tt))
        (λ e. tt) (λ _. tt)

  handle-IsShut :
      (game : Game) (a : Inner) (web : Web) (arrival : Arrival)
      → IsShut effects a
      → OkShut effects (handle game a web arrival)
  unfolding handle
  handle-IsShut game a web (ws_message msg) v =
      if_both (IsShut effects) a.handlers _ _ (no_message a web msg v) v
  handle-IsShut game a web ws_closed v = if_both (IsShut effects) a.handlers _ _ (no_end a v) v
  handle-IsShut game a web (ice_candidate e c) v = no_candidate a web e c v
  handle-IsShut game a web (state_changed e) v = no_state a web e v
  handle-IsShut game a web (buffer_low e) v = low-IsShut a e v
  handle-IsShut game a web (reliable_data e incoming) v = no_data a web e incoming v
  handle-IsShut game a web (best_effort_data e incoming) v = no_datagram a e incoming v
  handle-IsShut game a web (channel_event e is_open) v = channel-IsShut a e is_open v
  handle-IsShut game a web (send_best_effort to bytes) v =
      or_same-IsShut a _ v (best_effort-IsShut game a web to bytes v)
  handle-IsShut game a web (broadcast bytes) v =
      or_same-IsShut a _ v (broadcast-IsShut game a web bytes v)
  handle-IsShut game a web (send_reliable to bytes done) v =
      or_same-IsShut a _ v (reliable-IsShut game a to bytes done v)
  handle-IsShut game a web close v = no_shutdown a web v

shut_of :
    (effects : List Output) (o : Outcome ⊥ Inner) (next : Inner)
    → o ≡ ok next
    → OkShut effects o
    → IsShut effects next
shut_of effects (ok a) next h v = rw (sym (ok-injective a next h)) v
shut_of effects (err e) next h v = absurd e
shut_of effects panic next h v = cc

-- Once the game is closed it stays so, and of all that can still happen nothing is seen: no event, no
-- message to the server, no frame, no new connection.
pub step_shut :
    (game : Game) (a b : Inner) (effects : List Output)
    → Step game a b
    → IsShut effects a
    → IsShut effects b
step_shut game a b effects (arrives web arrival next h) v =
    shut_of effects _ next h (handle-IsShut game a web arrival v)
step_shut game a b effects (resumes web t before after here ready) v =
    resume-IsShut (record a { tasks = before ++ after }) web t
      (record { shut = v.shut; links_shut = v.links_shut; same = v.same })
