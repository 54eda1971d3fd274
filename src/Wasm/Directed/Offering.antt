-- ===== src/Wasm/Directed/Offering.antt =====
-- The signaling steps that go by who may offer to whom.
use lobbylink.Base.{
  ℕ, ◌≡◌, refl, true, false, ltb, ◌==◌, ◌||◌, arith, if_both, if_cases, lookup_cases, Text,
}
use lobbylink.Base.Map
use lobbylink.Protocol.{SignalPayload, offer, answer, ice, unknown}
use lobbylink.Wasm.{Inner, Web, offer_start, offer_applied}
use lobbylink.Wasm.Links.{create_link}
use lobbylink.Wasm.Signals.{initiate_peer, send_offer, handle_offer, handle_payload, handle_signal}
use lobbylink.Wasm.Invariant.{IsSound}
use lobbylink.Wasm.Directed.{initiates, IsOrdered, spawn-IsOrdered}
use lobbylink.Wasm.Directed.Links.{create_link-IsOrdered}
use lobbylink.Wasm.Directed.Signals.{
  create_link_self, handle_answer-IsOrdered, handle_ice-IsOrdered, send_local-IsOrdered,
}

module _ {self_id max_players : ℕ} where
  pub initiate_peer-IsOrdered :
      (a : Inner) (web : Web) (k : ℕ)
      → IsSound self_id max_players a
      → IsOrdered a
      → IsOrdered (initiate_peer a web k)
  unfolding initiate_peer
  initiate_peer-IsOrdered a web k v d =
      let (made, offers) = create_link-IsOrdered a web k true v d in
      if_both IsOrdered a.closed _ _ d (
        lookup_cases IsOrdered (create_link a web k true).1 _ _ (λ _. made)
          (λ e there.
            spawn-IsOrdered (create_link a web k true).0 (offer_start e) (offers e there refl)
              made))

  pub send_offer-IsOrdered :
      (a : Inner) (web : Web) (e : ℕ)
      → initiates a.links e ≡ true
      → IsSound self_id max_players a
      → IsOrdered a
      → IsOrdered (send_offer a web e)
  unfolding send_offer initiates
  send_offer-IsOrdered a web e p v d =
      lookup_cases IsOrdered (Map.get a.links e) _ _ (λ _. d)
        (λ l there.
          send_local-IsOrdered a web e l.player_id offer
            (λ sdp. ground (arith, v.self, (v.linked.each e l there).direction)) d)

  handle_offer-IsOrdered :
      (a : Inner) (web : Web) (from : ℕ) (sdp : Text)
      → (from == a.self_id) ≡ false
      → IsSound self_id max_players a
      → IsOrdered a
      → IsOrdered (handle_offer a web from sdp)
  unfolding handle_offer
  handle_offer-IsOrdered a web from sdp other v d =
      let made = create_link-IsOrdered a web from false v d in
      if_cases IsOrdered (ltb a.self_id from) _ _ (λ _. d)
        (λ down.
          lookup_cases IsOrdered (create_link a web from false).1 _ _ (λ _. made.0)
            (λ e _.
              spawn-IsOrdered (create_link a web from false).0 (offer_applied e from)
                (ground (arith, create_link_self a web from false)) made.0))

  handle_payload-IsOrdered :
      (a : Inner) (web : Web) (from : ℕ) (payload : SignalPayload)
      → (from == a.self_id) ≡ false
      → IsSound self_id max_players a
      → IsOrdered a
      → IsOrdered (handle_payload a web from payload)
  unfolding handle_payload
  handle_payload-IsOrdered a web from (offer sdp) other v d =
      handle_offer-IsOrdered a web from sdp other v d
  handle_payload-IsOrdered a web from (answer sdp) other v d =
      handle_answer-IsOrdered a web from sdp d
  handle_payload-IsOrdered a web from (ice c) other v d = handle_ice-IsOrdered a web from c d
  handle_payload-IsOrdered a web from unknown other v d = d

  pub handle_signal-IsOrdered :
      (a : Inner) (web : Web) (from : ℕ) (payload : SignalPayload)
      → IsSound self_id max_players a
      → IsOrdered a
      → IsOrdered (handle_signal a web from payload)
  unfolding handle_signal
  handle_signal-IsOrdered a web from payload v d =
      if_cases IsOrdered (a.closed || from == a.self_id) _ _ (λ _. d)
        (λ live. handle_payload-IsOrdered a web from payload (ground arith) v d)
