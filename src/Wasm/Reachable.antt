-- ===== src/Wasm/Reachable.antt =====
-- Every state that the program of clients/rust/src/wasm can be in is sound and ordered, whatever
-- the browser answers and in whatever order its handlers, the calls and the tasks run.
use lobbylink.Base.{ℕ, ◌≡◌, refl, List, [], ◌∷◌, ◌++◌, All, sym, if_both}
use lobbylink.Base.Map
use lobbylink.Base.Outcome.{Outcome, ok, err, panic, ok-injective}
use lobbylink.Error.{LobbyError}
use lobbylink.Protocol.{answer}
use lobbylink.Wasm.{
  Task, offer_start, offer_created, offer_set, signal_start, offer_applied, answer_created,
  answer_set, answer_applied, flushing, rebuild_sleep, pair_start, pair_stats, worker_start,
  link_wait, open_wait, drain_wait, Inner, Web,
}
use lobbylink.Wasm.Callbacks.{Incoming, on_reliable}
use lobbylink.Wasm.Game.{Game}
use lobbylink.Wasm.Steps.{
  Arrival, ws_message, ws_closed, ice_candidate, state_changed, buffer_low, reliable_data,
  best_effort_data, channel_event, send_best_effort, broadcast, send_reliable, close, or_same,
  handle, resume,
}
use lobbylink.Wasm.Kept.{IsKept, link_known_keeps, open_known_keeps, send_from_keeps}
use lobbylink.Wasm.Kept.Workers.{settle_keeps, run_worker_keeps}
use lobbylink.Wasm.Kept.Calls.{
  CallKept, send_best_effort_keeps, broadcast_keeps, send_reliable_keeps,
}
use lobbylink.Wasm.Invariant.{IsSound}
use lobbylink.Wasm.Invariant.Signals.{
  offer_made-IsSound, send_offer-IsSound, send_local-IsSound, flush_list-IsSound,
  offer_taken-IsSound, answer_made-IsSound, answer_taken-IsSound, handle_signal-IsSound,
}
use lobbylink.Wasm.Invariant.Lobby.{on_ws_message-IsSound, on_ws_close-IsSound, shutdown-IsSound}
use lobbylink.Wasm.Invariant.Callbacks.{
  on_ice_candidate-IsSound, on_state-IsSound, on_reliable-IsSound, on_best_effort-IsSound,
  on_channel-IsSound, on_low-IsSound, retry_peer-IsSound, report_pair-IsSound,
}
use lobbylink.Wasm.Invariant.Sends.{IsSound-IsKept}
use lobbylink.Wasm.Directed.{IsTask, IsOrdered, spawn-IsOrdered}
use lobbylink.Wasm.Directed.Signals.{
  offer_made-IsOrdered, send_local-IsOrdered, flushing-IsOrdered, offer_taken-IsOrdered,
  answer_made-IsOrdered, answer_taken-IsOrdered,
}
use lobbylink.Wasm.Directed.Offering.{send_offer-IsOrdered, handle_signal-IsOrdered}
use lobbylink.Wasm.Directed.Lobby.{
  on_ws_message-IsOrdered, on_ws_close-IsOrdered, shutdown-IsOrdered,
}
use lobbylink.Wasm.Directed.Handlers.{
  OkOrdered, on_ice_candidate-IsOrdered, on_state-IsOrdered, on_reliable-IsOrdered,
  on_best_effort-IsOrdered, on_channel-IsOrdered, on_low-IsOrdered, retry_peer-IsOrdered,
  report_pair-IsOrdered,
}
use lobbylink.Wasm.Directed.Sends.{IsOrdered-IsKept}

-- A list that is all of a kind, without one of its elements.
pub All-without {ℓ κ} :
    {A : Type ℓ} (P : A → Type κ) (xs : List A) (y : A) (ys : List A)
    → All P (xs ++ (y ∷ ys))
    → P y × All P (xs ++ ys)
All-without P [] y ys p = p
All-without P (x ∷ xs) y ys p = let (q, rest) = All-without P xs y ys p.1 in (q, (p.0, rest))

ok_ordered : (o : Outcome ⊥ Inner) (next : Inner) → o ≡ ok next → OkOrdered o → IsOrdered next
ok_ordered (ok a) next h d = rw (sym (ok-injective a next h)) d
ok_ordered (err e) next h d = absurd e
ok_ordered panic next h d = cc

module _ (self_id max_players : ℕ) where
  -- What holds of every state.
  abbrev pub IsFine : Inner → Type 0
  IsFine a = IsSound self_id max_players a × IsOrdered a

  IsFine-IsKept : IsKept IsFine
  IsFine-IsKept =
      let s : IsKept (IsSound self_id max_players) = IsSound-IsKept self_id max_players in
      let d = IsOrdered-IsKept in
      record {
        sending = record {
          sent = λ a e frame v. (s.sending.sent a e frame v.0, d.sending.sent a e frame v.1);
          numbered = λ a e l there v.
              (s.sending.numbered a e l there v.0, d.sending.numbered a e l there v.1);
          drains = λ a g left seq v.
              (s.sending.drains a g left seq v.0, d.sending.drains a g left seq v.1);
          opens = λ a to job e l there v.
              (s.sending.opens a to job e l there v.0, d.sending.opens a to job e l there v.1);
          links = λ a to job v. (s.sending.links a to job v.0, d.sending.links a to job v.1);
        };
        thrown = λ a e bytes v. (s.thrown a e bytes v.0, d.thrown a e bytes v.1);
        replied = λ a job r v. (s.replied a job r v.0, d.replied a job r v.1);
        queued = λ a to queue v. (s.queued a to queue v.0, d.queued a to queue v.1);
        started = λ a to v. (s.started a to v.0, d.started a to v.1);
      }

  pub resume-IsFine :
      (a : Inner) (web : Web) (t : Task)
      → IsTask a.self_id a.links a.log t
      → IsFine a
      → IsFine (resume a web t)
  unfolding resume
  resume-IsFine a web (offer_start e) p (v, d) = (v, spawn-IsOrdered a (offer_created e) p d)
  resume-IsFine a web (offer_created e) p (v, d) =
      (offer_made-IsSound a web e v, offer_made-IsOrdered a web e p d)
  resume-IsFine a web (offer_set e) p (v, d) =
      (send_offer-IsSound a web e v, send_offer-IsOrdered a web e p v d)
  resume-IsFine a web (signal_start from payload) p (v, d) =
      (handle_signal-IsSound a web from payload v, handle_signal-IsOrdered a web from payload v d)
  resume-IsFine a web (offer_applied e from) p (v, d) =
      (offer_taken-IsSound a web e from v, offer_taken-IsOrdered a web e from p d)
  resume-IsFine a web (answer_created e from) p (v, d) =
      (answer_made-IsSound a web e from v, answer_made-IsOrdered a web e from p d)
  resume-IsFine a web (answer_set e from) p (v, d) = (
    send_local-IsSound a web e from answer v,
    send_local-IsOrdered a web e from answer (λ sdp. p) d,
  )
  resume-IsFine a web (answer_applied e) p (v, d) =
      (answer_taken-IsSound a web e v, answer_taken-IsOrdered a web e d)
  resume-IsFine a web (flushing e cs after) p (v, d) =
      (flush_list-IsSound a web e cs after v, flushing-IsOrdered a web e cs after p d)
  resume-IsFine a web (rebuild_sleep k e) p (v, d) =
      (retry_peer-IsSound a web k e (rw (sym v.self) p) v, retry_peer-IsOrdered a web k e v d)
  resume-IsFine a web (pair_start e) p (v, d) = (v, spawn-IsOrdered a (pair_stats e) tt d)
  resume-IsFine a web (pair_stats e) p (v, d) =
      (report_pair-IsSound a web e v, report_pair-IsOrdered a web e d)
  resume-IsFine a web (worker_start to) p v = run_worker_keeps IsFine IsFine-IsKept a web to v
  resume-IsFine a web (link_wait to job waiter) p v =
      settle_keeps IsFine IsFine-IsKept web to job _
        (link_known_keeps IsFine IsFine-IsKept.sending a web to job (Map.get a.mail waiter) v)
  resume-IsFine a web (open_wait to job e waiter) p v =
      settle_keeps IsFine IsFine-IsKept web to job _
        (open_known_keeps IsFine IsFine-IsKept.sending a web to job e (Map.get a.mail waiter) v)
  resume-IsFine a web (drain_wait s waiter) p v =
      settle_keeps IsFine IsFine-IsKept web s.to s.job _
        (send_from_keeps IsFine IsFine-IsKept.sending a web s _ s.left s.seq v)

  or_same-IsFine :
      (a : Inner) (o : Outcome LobbyError Inner)
      → IsFine a
      → CallKept IsFine o
      → (next : Inner) × (or_same a o ≡ ok next) × IsFine next
  or_same-IsFine a (ok a') v p = (a', refl, p)
  or_same-IsFine a (err e) v p = (a, refl, v)
  or_same-IsFine a panic v p = absurd p

  on_reliable-IsFine :
      (a : Inner) (web : Web) (e : ℕ) (incoming : Incoming)
      → IsFine a
      → (next : Inner) × (on_reliable a web e incoming ≡ ok next) × IsFine next
  on_reliable-IsFine a web e incoming (v, d) =
      let (next, h, v') = on_reliable-IsSound a web e incoming v in
      let d' = on_reliable-IsOrdered a web e incoming d in (next, h, (v', ok_ordered _ next h d'))

  pub handle-IsFine :
      (game : Game) (a : Inner) (web : Web) (arrival : Arrival)
      → IsFine a
      → (next : Inner) × (handle game a web arrival ≡ ok next) × IsFine next
  unfolding handle
  handle-IsFine game a web (ws_message msg) (v, d) = (
    _,
    refl,
    if_both IsFine a.handlers _ _
        (on_ws_message-IsSound a web msg v, on_ws_message-IsOrdered a web msg v d) (v, d),
  )
  handle-IsFine game a web ws_closed (v, d) = (
    _,
    refl,
    if_both IsFine a.handlers _ _ (on_ws_close-IsSound a v, on_ws_close-IsOrdered a d) (v, d),
  )
  handle-IsFine game a web (ice_candidate e c) (v, d) =
      (_, refl, (on_ice_candidate-IsSound a web e c v, on_ice_candidate-IsOrdered a web e c d))
  handle-IsFine game a web (state_changed e) (v, d) =
      (_, refl, (on_state-IsSound a web e v, on_state-IsOrdered a web e v d))
  handle-IsFine game a web (buffer_low e) (v, d) =
      (_, refl, (on_low-IsSound a e v, on_low-IsOrdered a e d))
  handle-IsFine game a web (reliable_data e incoming) v = on_reliable-IsFine a web e incoming v
  handle-IsFine game a web (best_effort_data e incoming) (v, d) =
      (_, refl, (on_best_effort-IsSound a e incoming v, on_best_effort-IsOrdered a e incoming d))
  handle-IsFine game a web (channel_event e is_open) (v, d) =
      (_, refl, (on_channel-IsSound a e is_open v, on_channel-IsOrdered a e is_open d))
  handle-IsFine game a web (send_best_effort to bytes) v =
      or_same-IsFine a _ v (send_best_effort_keeps IsFine IsFine-IsKept game a web to bytes v)
  handle-IsFine game a web (broadcast bytes) v =
      or_same-IsFine a _ v (broadcast_keeps IsFine IsFine-IsKept game a web bytes v)
  handle-IsFine game a web (send_reliable to bytes done) v =
      or_same-IsFine a _ v (send_reliable_keeps IsFine IsFine-IsKept game a to bytes done v)
  handle-IsFine game a web close (v, d) =
      (_, refl, (shutdown-IsSound a web v, shutdown-IsOrdered a web d))
