-- ===== src/Wasm/Directed/Handlers.antt =====
-- The handlers of a connection and the failures of a peer.
use lobbylink.Base.{
  ℕ, ◌+◌, ◌*◌, ◌≡◌, refl, Bool, true, List, [], Option, none, some, ltb, ◌==◌, ◌||◌, not, arith,
  if_both, if_cases, lookup_cases, Text, codes, text_eq, Option-cases, inl, inr,
}
use lobbylink.Base.Map
use lobbylink.Base.Outcome.{Outcome, ok, >>=_cases}
use lobbylink.Error.{max_peer_rebuilds}
use lobbylink.Events.{PlayerLeftReason, explicit_leave, disconnected}
use lobbylink.Native.Receive.{receive}
use lobbylink.Protocol.{ice}
use lobbylink.Protocol.Values.{Json}
use lobbylink.Wasm.{Link, Inner, Web, put, emit, sleep, rebuild_sleep, set_link}
use lobbylink.Events as EventsOf
use lobbylink.Wasm.Invariant.Lobby.{emit-IsSound}
use lobbylink.Wasm.{pair_start}
use lobbylink.Wasm.Callbacks.{on_state, connected_peer, retry_peer}
use lobbylink.Wasm.Stats.{candidate_pair}
use lobbylink.Wasm.Callbacks.{
  on_ice_candidate, rebuilds, count_failure, current_link, handle_peer_failure, Incoming,
  message_bytes, tell_reliable, with_buffers, take_frame, on_reliable, on_best_effort, on_channel,
  on_low, report_pair,
}
use lobbylink.Wasm.Invariant.{IsSound}
use lobbylink.Wasm.Invariant.Callbacks.{at_open_cases}
use lobbylink.Wasm.Directed.{
  IsOrdered, put-IsOrdered, spawn-IsOrdered, set_link-IsOrdered, emit-IsOrdered,
}
use lobbylink.Wasm.Directed.Signals.{send_signal-IsOrdered}
use lobbylink.Wasm.Directed.Offering.{initiate_peer-IsOrdered}

pub on_ice_candidate-IsOrdered :
    (a : Inner) (web : Web) (e : ℕ) (c : Option Json)
    → IsOrdered a
    → IsOrdered (on_ice_candidate a web e c)
unfolding on_ice_candidate
on_ice_candidate-IsOrdered a web e none d = d
on_ice_candidate-IsOrdered a web e (some c) d =
    at_open_cases IsOrdered a e _ d
      (λ l _. send_signal-IsOrdered a web l.player_id (ice (some c)) tt d)

count_failure-IsOrdered :
    (a : Inner) (k e : ℕ) → ltb a.self_id k ≡ true → IsOrdered a → IsOrdered (count_failure a k e)
unfolding count_failure
count_failure-IsOrdered a k e up d =
    let count = rebuilds a k + 1 in
    let counted : Inner = record a { rebuild_counts = Map.insert a.rebuild_counts k count } in
    if_cases IsOrdered (ltb max_peer_rebuilds count) _ _ (λ _. d)
      (λ few.
        spawn-IsOrdered (put counted (sleep k e (1000 * count))) (rebuild_sleep k e) up
          (put-IsOrdered counted (sleep k e (1000 * count)) (up, ground arith, ground arith) d))

tell_reliable-IsOrdered :
    (a : Inner) (from : ℕ) (out : Option (List ℕ))
    → IsOrdered a
    → IsOrdered (tell_reliable a from out)
tell_reliable-IsOrdered a from none d = d
tell_reliable-IsOrdered a from (some message) d = emit-IsOrdered a _ d

abbrev pub OkOrdered : Outcome ⊥ Inner → Type 0
OkOrdered (ok a) = IsOrdered a
OkOrdered _ = Unit

pub on_reliable-IsOrdered :
    (a : Inner) (web : Web) (e : ℕ) (incoming : Incoming)
    → IsOrdered a
    → OkOrdered (on_reliable a web e incoming)
unfolding on_reliable take_frame
on_reliable-IsOrdered a web e incoming d =
    lookup_cases OkOrdered (Map.get a.links e) _ _ (λ _. d)
      (λ l there. if_both OkOrdered l.closed _ _ d (
        lookup_cases OkOrdered (message_bytes incoming) _ _ (λ _. d)
          (λ bytes _.
            >>=_cases OkOrdered (receive l.reassembler bytes web.now_ms) _
              (λ r _. tell_reliable-IsOrdered _ l.player_id r.1 (
                set_link-IsOrdered a e l (with_buffers l r.0) there refl
                  (λ n. d.flushed e l there n) d))
              (λ e. tt) (λ _. tt))))

pub on_best_effort-IsOrdered :
    (a : Inner) (e : ℕ) (incoming : Incoming)
    → IsOrdered a
    → IsOrdered (on_best_effort a e incoming)
unfolding on_best_effort
on_best_effort-IsOrdered a e incoming d = at_open_cases IsOrdered a e _ d (λ l _.
    lookup_cases IsOrdered (message_bytes incoming) _ _ (λ _. d) (λ bytes _. emit-IsOrdered a _ d))

pub with_waiters-IsOrdered :
    (a : Inner) (e : ℕ) (l : Link) (open_waiters drain_waiters : List ℕ)
    → Map.get a.links e ≡ some l
    → IsOrdered a
    → IsOrdered
        (set_link a e (record l { open_waiters = open_waiters; drain_waiters = drain_waiters }))
with_waiters-IsOrdered a e l open_waiters drain_waiters there d =
    set_link-IsOrdered a e l _ there refl (λ n. d.flushed e l there n) d

pub on_channel-IsOrdered :
    (a : Inner) (e : ℕ) (is_open : Bool) → IsOrdered a → IsOrdered (on_channel a e is_open)
unfolding on_channel
on_channel-IsOrdered a e is_open d =
    lookup_cases IsOrdered (Map.get a.links e) _ _ (λ _. d)
      (λ l there. with_waiters-IsOrdered a e l [] l.drain_waiters there d)

pub on_low-IsOrdered : (a : Inner) (e : ℕ) → IsOrdered a → IsOrdered (on_low a e)
unfolding on_low
on_low-IsOrdered a e d =
    lookup_cases IsOrdered (Map.get a.links e) _ _ (λ _. d)
      (λ l there. with_waiters-IsOrdered a e l l.open_waiters [] there d)

pub report_pair-IsOrdered :
    (a : Inner) (web : Web) (e : ℕ) → IsOrdered a → IsOrdered (report_pair a web e)
unfolding report_pair
report_pair-IsOrdered a web e d = at_open_cases IsOrdered a e _ d (λ l _.
    if_both IsOrdered (not web.fulfilled) _ _ d (
      lookup_cases IsOrdered (candidate_pair web.stats) _ _ (λ _. d)
        (λ pair _.
          lookup_cases IsOrdered (Map.get a.peers l.player_id) _ _ (λ _. d)
            (λ current _. if_both IsOrdered (current == e) _ _ (emit-IsOrdered a _ d) d))))

connected_peer-IsOrdered : (a : Inner) (k e : ℕ) → IsOrdered a → IsOrdered (connected_peer a k e)
unfolding connected_peer
connected_peer-IsOrdered a k e d =
    spawn-IsOrdered (record a { rebuild_counts = Map.remove a.rebuild_counts k }) (pair_start e) tt
      d

module _ {self_id max_players : ℕ} where
  -- The link of a player whom we offer to has a higher id.
  initiator_up :
      (a : Inner) (k : ℕ) (l : Link)
      → current_link a k ≡ some l
      → l.initiator ≡ true
      → IsSound self_id max_players a
      → ltb a.self_id k ≡ true
  initiator_up a k l here up v = elim (Option-cases (Map.get a.peers k)) [
    | inl out ↦ absurd (ground arith)
    | inr (e, there) ↦
        let (m, h, id, is_open) = v.linked.held k e there in
        ground (arith, v.self, (v.linked.each e m h).direction)
  ]

  pub handle_peer_failure-IsOrdered :
      (a : Inner) (k e : ℕ)
      → IsSound self_id max_players a
      → IsOrdered a
      → IsOrdered (handle_peer_failure a k e)
  unfolding handle_peer_failure
  handle_peer_failure-IsOrdered a k e v d = if_both IsOrdered a.closed _ _ d (
      lookup_cases IsOrdered (current_link a k) _ _ (λ _. d)
        (λ l here.
          if_cases IsOrdered (not (l.epoch == e) || not l.initiator) _ _ (λ _. d)
            (λ ours. count_failure-IsOrdered a k e (initiator_up a k l here (ground arith) v) d)))

  pub on_state-IsOrdered :
      (a : Inner) (web : Web) (e : ℕ)
      → IsSound self_id max_players a
      → IsOrdered a
      → IsOrdered (on_state a web e)
  unfolding on_state
  on_state-IsOrdered a web e v d = at_open_cases IsOrdered a e _ d (λ l _.
      let state : Text = web.connection_state e in
      let told : Inner = emit a (EventsOf.Event.peer_state l.player_id state) in
      let told_d = emit-IsOrdered a (EventsOf.Event.peer_state l.player_id state) d in
      let told_v = emit-IsSound a (EventsOf.Event.peer_state l.player_id state) v in
      if_both IsOrdered (text_eq state (codes "connected")) _ _
        (connected_peer-IsOrdered told l.player_id e told_d)
        (if_both IsOrdered (text_eq state (codes "failed")) _ _
          (handle_peer_failure-IsOrdered told l.player_id e told_v told_d) told_d))

  pub retry_peer-IsOrdered :
      (a : Inner) (web : Web) (k e : ℕ)
      → IsSound self_id max_players a
      → IsOrdered a
      → IsOrdered (retry_peer a web k e)
  unfolding retry_peer
  retry_peer-IsOrdered a web k e v d =
      lookup_cases IsOrdered (current_link a k) _ _ (λ _. d)
        (λ l _. if_both IsOrdered _ _ _ (initiate_peer-IsOrdered a web k v d) d)
