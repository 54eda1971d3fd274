-- ===== src/Wasm/Closing/Handlers.antt =====
-- The handlers of clients/rust/src/wasm after the game is closed.
use lobbylink.Base.{ℕ, ◌≡◌, List, Option, none, some, lookup_cases, arith, if_cases}
use lobbylink.Base.Map
use lobbylink.Base.Outcome.{Outcome, ok}
use lobbylink.Protocol.Values.{Json}
use lobbylink.Wasm.{Link, Output, Inner, Web}
use lobbylink.Wasm.Lobby.{on_ws_message, handle_server_message, on_ws_close, shutdown}
use lobbylink.Wasm.Callbacks.{
  at_open, Incoming, current_link, retry_peer, on_ice_candidate, on_state, on_reliable,
  on_best_effort, on_channel, on_low,
}
use lobbylink.Wasm.Closing.{IsShut, relink-IsShut}
use lobbylink.Base.{[], Bool, not, if◌then◌else◌, ◌||◌, ◌&&◌}
use lobbylink.Protocol.{ServerMessage}
use lobbylink.Wasm.{set_link}

-- A call that gives a state gives one that is closed.
abbrev pub OkShut {ℓ} : {E : Type ℓ} → List Output → Outcome E Inner → Type 0
OkShut effects (ok a) = IsShut effects a
OkShut effects _ = Unit

module _ {effects : List Output} where
  pub at_open-IsShut :
      (a : Inner) (e : ℕ) (run : Link → Inner) → IsShut effects a → IsShut effects (at_open a e run)
  at_open-IsShut a e run v =
      lookup_cases (IsShut effects) (Map.get a.links e) _ _ (λ _. v)
        (λ l there.
          if_cases (IsShut effects) l.closed _ _ (λ _. v)
            (λ h. absurd (ground (arith, h, v.links_shut e l there))))

  -- What is done only in an open game.
  only_open :
      (a : Inner) (b : Bool) (x : Inner)
      → IsShut effects a
      → IsShut effects (if not a.closed && b then x else a)
  only_open a b x v =
      if_cases (IsShut effects) (not a.closed && b) x a (λ h. absurd (ground (arith, h, v.shut)))
        (λ _. v)

  pub no_retry :
      (a : Inner) (web : Web) (k e : ℕ) → IsShut effects a → IsShut effects (retry_peer a web k e)
  unfolding retry_peer
  no_retry a web k e v =
      lookup_cases (IsShut effects) (current_link a k) _ _ (λ _. v) (λ l _. only_open a _ _ v)

  pub no_message :
      (a : Inner) (web : Web) (msg : Option ServerMessage)
      → IsShut effects a
      → IsShut effects (on_ws_message a web msg)
  unfolding on_ws_message handle_server_message
  no_message a web none v = v
  no_message a web (some msg) v =
      if_cases (IsShut effects) a.closed _ _ (λ _. v) (λ h. absurd (ground (arith, h, v.shut)))

  pub no_end : (a : Inner) → IsShut effects a → IsShut effects (on_ws_close a)
  unfolding on_ws_close
  no_end a v =
      if_cases (IsShut effects) (a.closed || a.fatal_seen) _ _ (λ _. v)
        (λ h. absurd (ground (arith, h, v.shut)))

  pub no_shutdown : (a : Inner) (web : Web) → IsShut effects a → IsShut effects (shutdown a web)
  unfolding shutdown
  no_shutdown a web v =
      if_cases (IsShut effects) a.closed _ _ (λ _. v) (λ h. absurd (ground (arith, h, v.shut)))

  pub no_candidate :
      (a : Inner) (web : Web) (e : ℕ) (c : Option Json)
      → IsShut effects a
      → IsShut effects (on_ice_candidate a web e c)
  unfolding on_ice_candidate
  no_candidate a web e none v = v
  no_candidate a web e (some c) v = at_open-IsShut a e _ v

  pub no_state :
      (a : Inner) (web : Web) (e : ℕ) → IsShut effects a → IsShut effects (on_state a web e)
  unfolding on_state
  no_state a web e v = at_open-IsShut a e _ v

  pub no_datagram :
      (a : Inner) (e : ℕ) (incoming : Incoming)
      → IsShut effects a
      → IsShut effects (on_best_effort a e incoming)
  unfolding on_best_effort
  no_datagram a e incoming v = at_open-IsShut a e _ v

  pub no_data :
      (a : Inner) (web : Web) (e : ℕ) (incoming : Incoming)
      → IsShut effects a
      → OkShut effects (on_reliable a web e incoming)
  unfolding on_reliable
  no_data a web e incoming v =
      lookup_cases (OkShut effects) (Map.get a.links e) _ _ (λ _. v)
        (λ l there.
          if_cases (OkShut effects) l.closed _ _ (λ _. v)
            (λ h. absurd (ground (arith, h, v.links_shut e l there))))

  pub waiters-IsShut :
      (a : Inner) (e : ℕ) (l : Link) (open_waiters drain_waiters : List ℕ)
      → Map.get a.links e ≡ some l
      → IsShut effects a
      → IsShut effects
          (set_link a e (record l { open_waiters = open_waiters; drain_waiters = drain_waiters }))
  waiters-IsShut a e l open_waiters drain_waiters there v =
      relink-IsShut a e _ (v.links_shut e l there) v

  pub low-IsShut : (a : Inner) (e : ℕ) → IsShut effects a → IsShut effects (on_low a e)
  unfolding on_low
  low-IsShut a e v =
      lookup_cases (IsShut effects) (Map.get a.links e) _ _ (λ _. v)
        (λ l there. waiters-IsShut a e l l.open_waiters [] there v)

  pub channel-IsShut :
      (a : Inner) (e : ℕ) (is_open : Bool)
      → IsShut effects a
      → IsShut effects (on_channel a e is_open)
  unfolding on_channel
  channel-IsShut a e is_open v =
      lookup_cases (IsShut effects) (Map.get a.links e) _ _ (λ _. v)
        (λ l there. waiters-IsShut a e l [] l.drain_waiters there v)
