-- ===== src/Wasm/Invariant/Callbacks.antt =====
-- The handlers of a connection, the rebuilds and the report of the candidate pair keep the invariant.
use lobbylink.Base.{
  ℕ, ◌+◌, ◌≡◌, refl, Bool, true, List, [], Option, none, some, ltb, ◌==◌, ◌||◌, not, if_both,
  lookup_cases, codes, text_eq,
}
use lobbylink.Base.Map
use lobbylink.Base.Outcome.{Outcome, ok, ◌>>=◌}
use lobbylink.Error.{max_peer_rebuilds}
use lobbylink.Protocol.{ice}
use lobbylink.Protocol.Values.{Json}
use lobbylink.Native.Actor.Invariant.Ends.{receive-IsValid}
use lobbylink.Wasm.{Link, Inner, Web, set_link}
use lobbylink.Wasm.Stats.{candidate_pair}
use lobbylink.Wasm.Callbacks.{
  at_open, on_ice_candidate, rebuilds, count_failure, current_link, handle_peer_failure, retry_peer,
  connected_peer, on_state, Incoming, message_bytes, tell_reliable, with_buffers, take_frame,
  on_reliable, on_best_effort, on_channel, on_low, report_pair,
}
use lobbylink.Wasm.Invariant.{IsSound}
use lobbylink.Wasm.Invariant.Linked.{IsSame}
use lobbylink.Wasm.Invariant.Links.{set_link-IsSound}
use lobbylink.Wasm.Invariant.Signals.{send_signal-IsSound, initiate_peer-IsSound}
use lobbylink.Wasm.Invariant.Lobby.{emit-IsSound}

pub at_open_cases {ℓ} :
    (P : Inner → Type ℓ) (a : Inner) (e : ℕ) (run : Link → Inner)
    → P a
    → ((l : Link) → Map.get a.links e ≡ some l → P (run l))
    → P (at_open a e run)
at_open_cases P a e run p q =
    lookup_cases P (Map.get a.links e) _ _ (λ _. p)
      (λ l there. if_both P l.closed _ _ p (q l there))

-- The handler ends well, in a sound state.
abbrev Ends : ℕ → ℕ → Outcome ⊥ Inner → Type 0
Ends self_id max_players m = (a' : Inner) × (m ≡ ok a') × IsSound self_id max_players a'

module _ {self_id max_players : ℕ} where
  pub on_ice_candidate-IsSound :
      (a : Inner) (web : Web) (e : ℕ) (c : Option Json)
      → IsSound self_id max_players a
      → IsSound self_id max_players (on_ice_candidate a web e c)
  unfolding on_ice_candidate
  on_ice_candidate-IsSound a web e none v = v
  on_ice_candidate-IsSound a web e (some c) v =
      at_open_cases (IsSound self_id max_players) a e _ v
        (λ l _. send_signal-IsSound a web l.player_id (ice (some c)) v)

  count_failure-IsSound :
      (a : Inner) (k e : ℕ)
      → IsSound self_id max_players a
      → IsSound self_id max_players (count_failure a k e)
  unfolding count_failure
  count_failure-IsSound a k e v =
      if_both (IsSound self_id max_players) (ltb max_peer_rebuilds (rebuilds a k + 1)) _ _ v v

  handle_peer_failure-IsSound :
      (a : Inner) (k e : ℕ)
      → IsSound self_id max_players a
      → IsSound self_id max_players (handle_peer_failure a k e)
  unfolding handle_peer_failure
  handle_peer_failure-IsSound a k e v = if_both (IsSound self_id max_players) a.closed _ _ v (
      lookup_cases (IsSound self_id max_players) (current_link a k) _ _ (λ _. v)
        (λ l _.
          if_both (IsSound self_id max_players) (not (l.epoch == e) || not l.initiator) _ _ v
            (count_failure-IsSound a k e v)))

  pub on_state-IsSound :
      (a : Inner) (web : Web) (e : ℕ)
      → IsSound self_id max_players a
      → IsSound self_id max_players (on_state a web e)
  unfolding on_state connected_peer
  on_state-IsSound a web e v = at_open_cases (IsSound self_id max_players) a e _ v (λ l _.
      let told = emit-IsSound a _ v in
      if_both (IsSound self_id max_players) (text_eq (web.connection_state e) (codes "connected")) _
        _ told
        (if_both (IsSound self_id max_players) (text_eq (web.connection_state e) (codes "failed")) _
          _ (handle_peer_failure-IsSound _ l.player_id e told) told))

  tell_reliable-IsSound :
      (a : Inner) (from : ℕ) (out : Option (List ℕ))
      → IsSound self_id max_players a
      → IsSound self_id max_players (tell_reliable a from out)
  tell_reliable-IsSound a from none v = v
  tell_reliable-IsSound a from (some message) v = emit-IsSound a _ v

  take_frame-IsSound :
      (a : Inner) (web : Web) (e : ℕ) (l : Link) (bytes : List ℕ)
      → Map.get a.links e ≡ some l
      → IsSound self_id max_players a
      → (a' : Inner) × (take_frame a web e l bytes ≡ ok a') × IsSound self_id max_players a'
  unfolding take_frame
  take_frame-IsSound a web e l bytes there v =
      let old = v.linked.each e l there in
      let (r, out, runs, valid) = receive-IsValid l.reassembler bytes web.now_ms old.buffers in
      (
        tell_reliable (set_link a e (with_buffers l r)) l.player_id out,
        rw (runs, ◌>>=◌) refl,
        tell_reliable-IsSound _ l.player_id out (
            set_link-IsSound a e l _ there
              (record {
                player = refl;
                still_open = refl;
                fine = record {
                  named = old.named;
                  numbered = old.numbered;
                  direction = old.direction;
                  buffers = valid;
                };
              })
              v),
      )

  pub on_reliable-IsSound :
      (a : Inner) (web : Web) (e : ℕ) (incoming : Incoming)
      → IsSound self_id max_players a
      → (a' : Inner) × (on_reliable a web e incoming ≡ ok a') × IsSound self_id max_players a'
  unfolding on_reliable
  on_reliable-IsSound a web e incoming v =
      lookup_cases (Ends self_id max_players) (Map.get a.links e) _ _ (λ _. (a, refl, v))
        (λ l there.
          if_both (Ends self_id max_players) l.closed _ _ (a, refl, v)
            (lookup_cases (Ends self_id max_players) (message_bytes incoming) _ _
              (λ _. (a, refl, v)) (λ bytes _. take_frame-IsSound a web e l bytes there v)))

  pub on_best_effort-IsSound :
      (a : Inner) (e : ℕ) (incoming : Incoming)
      → IsSound self_id max_players a
      → IsSound self_id max_players (on_best_effort a e incoming)
  unfolding on_best_effort
  on_best_effort-IsSound a e incoming v =
      at_open_cases (IsSound self_id max_players) a e _ v (λ l _.
        lookup_cases (IsSound self_id max_players) (message_bytes incoming) _ _ (λ _. v)
          (λ bytes _. emit-IsSound a _ v))

  -- A link with other waiters.
  IsSame-waiters :
      (a : Inner) (e : ℕ) (l : Link) (open_waiters drain_waiters : List ℕ)
      → Map.get a.links e ≡ some l
      → IsSound self_id max_players a
      → IsSame self_id a.epoch_counter e l
          (record l { open_waiters = open_waiters; drain_waiters = drain_waiters })
  IsSame-waiters a e l open_waiters drain_waiters there v =
      let old = v.linked.each e l there in
      record {
        player = refl;
        still_open = refl;
        fine = record {
          named = old.named;
          numbered = old.numbered;
          direction = old.direction;
          buffers = old.buffers;
        };
      }

  pub with_waiters-IsSound :
      (a : Inner) (e : ℕ) (l : Link) (open_waiters drain_waiters : List ℕ)
      → Map.get a.links e ≡ some l
      → IsSound self_id max_players a
      → IsSound self_id max_players (record a {
        links =
            Map.insert a.links e
              (record l { open_waiters = open_waiters; drain_waiters = drain_waiters });
      })
  with_waiters-IsSound a e l open_waiters drain_waiters there v =
      set_link-IsSound a e l _ there (IsSame-waiters a e l open_waiters drain_waiters there v) v

  pub on_channel-IsSound :
      (a : Inner) (e : ℕ) (is_open : Bool)
      → IsSound self_id max_players a
      → IsSound self_id max_players (on_channel a e is_open)
  unfolding on_channel
  on_channel-IsSound a e is_open v =
      lookup_cases (IsSound self_id max_players) (Map.get a.links e) _ _ (λ _. v)
        (λ l there. with_waiters-IsSound a e l [] l.drain_waiters there v)

  pub on_low-IsSound :
      (a : Inner) (e : ℕ) → IsSound self_id max_players a → IsSound self_id max_players (on_low a e)
  unfolding on_low
  on_low-IsSound a e v =
      lookup_cases (IsSound self_id max_players) (Map.get a.links e) _ _ (λ _. v)
        (λ l there. with_waiters-IsSound a e l l.open_waiters [] there v)

  pub retry_peer-IsSound :
      (a : Inner) (web : Web) (k e : ℕ)
      → ltb self_id k ≡ true
      → IsSound self_id max_players a
      → IsSound self_id max_players (retry_peer a web k e)
  unfolding retry_peer
  retry_peer-IsSound a web k e up v =
      lookup_cases (IsSound self_id max_players) (current_link a k) _ _ (λ _. v)
        (λ l _. if_both (IsSound self_id max_players) _ _ _ (initiate_peer-IsSound a web k up v) v)

  pub report_pair-IsSound :
      (a : Inner) (web : Web) (e : ℕ)
      → IsSound self_id max_players a
      → IsSound self_id max_players (report_pair a web e)
  unfolding report_pair
  report_pair-IsSound a web e v = at_open_cases (IsSound self_id max_players) a e _ v (λ l _.
      if_both (IsSound self_id max_players) (not web.fulfilled) _ _ v (
        lookup_cases (IsSound self_id max_players) (candidate_pair web.stats) _ _ (λ _. v)
          (λ pair _.
            lookup_cases (IsSound self_id max_players) (Map.get a.peers l.player_id) _ _ (λ _. v)
              (λ current _.
                if_both (IsSound self_id max_players) (current == e) _ _ (emit-IsSound a _ v) v))))
