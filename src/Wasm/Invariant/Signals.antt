-- ===== src/Wasm/Invariant/Signals.antt =====
-- The signaling of wasm/inner.rs keeps the invariant.
use lobbylink.Base.{
  ℕ, ◌≡◌, refl, true, false, List, [], ◌∷◌, Option, none, some, ltb, ◌==◌, ◌||◌, not, arith,
  if_both, if_cases, lookup_cases, Text,
}
use lobbylink.Base.Map
use lobbylink.Protocol.{SignalPayload, offer, answer, ice, unknown}
use lobbylink.Protocol.Values.{Json}
use lobbylink.Wasm.{Link, After, done, create_answer, Inner, Web, put, remote_set, is_closed}
use lobbylink.Wasm.Links.{create_link}
use lobbylink.Wasm.Signals.{
  send_signal, initiate_peer, offer_made, send_local, send_offer, go_on, flush_list, with_pending,
  flush_link, flush_candidates, offer_taken, answer_made, answer_taken, handle_offer,
  is_have_local_offer, handle_answer, take_candidate, take_ice, handle_ice, handle_payload,
  handle_signal,
}
use lobbylink.Wasm.Invariant.{IsSound}
use lobbylink.Wasm.Invariant.Linked.{IsSame}
use lobbylink.Wasm.Invariant.Links.{set_link-IsSound, create_link-IsSound}

module _ {self_id max_players : ℕ} where
  pub send_signal-IsSound :
      (a : Inner) (web : Web) (to : ℕ) (payload : SignalPayload)
      → IsSound self_id max_players a
      → IsSound self_id max_players (send_signal a web to payload)
  unfolding send_signal
  send_signal-IsSound a web to payload v =
      if_both (IsSound self_id max_players) (a.closed || not web.ws_open) _ _ v v

  pub initiate_peer-IsSound :
      (a : Inner) (web : Web) (k : ℕ)
      → ltb self_id k ≡ true
      → IsSound self_id max_players a
      → IsSound self_id max_players (initiate_peer a web k)
  unfolding initiate_peer
  initiate_peer-IsSound a web k up v =
      if_cases (IsSound self_id max_players) a.closed _ _ (λ _. v)
        (λ live.
          let made = create_link-IsSound a web k true live (ground arith) v in
          lookup_cases (IsSound self_id max_players) (create_link a web k true).1 _ _ (λ _. made)
            (λ _ _. made))

  pub offer_made-IsSound :
      (a : Inner) (web : Web) (e : ℕ)
      → IsSound self_id max_players a
      → IsSound self_id max_players (offer_made a web e)
  unfolding offer_made
  offer_made-IsSound a web e v =
      if_both (IsSound self_id max_players) (not web.fulfilled || is_closed a e) _ _ v v

  pub send_local-IsSound :
      (a : Inner) (web : Web) (e to : ℕ) (payload : Text → SignalPayload)
      → IsSound self_id max_players a
      → IsSound self_id max_players (send_local a web e to payload)
  unfolding send_local
  send_local-IsSound a web e to payload v =
      if_both (IsSound self_id max_players) (not web.fulfilled || is_closed a e) _ _ v (
        lookup_cases (IsSound self_id max_players) web.local_description _ _ (λ _. v)
          (λ sdp _. send_signal-IsSound a web to (payload sdp) v))

  pub send_offer-IsSound :
      (a : Inner) (web : Web) (e : ℕ)
      → IsSound self_id max_players a
      → IsSound self_id max_players (send_offer a web e)
  unfolding send_offer
  send_offer-IsSound a web e v =
      lookup_cases (IsSound self_id max_players) (Map.get a.links e) _ _ (λ _. v)
        (λ l _. send_local-IsSound a web e l.player_id offer v)

  go_on-IsSound :
      (a : Inner) (e : ℕ) (after : After)
      → IsSound self_id max_players a
      → IsSound self_id max_players (go_on a e after)
  unfolding go_on
  go_on-IsSound a e done v = v
  go_on-IsSound a e (create_answer from) v = v

  pub flush_list-IsSound :
      (a : Inner) (web : Web) (e : ℕ) (cs : List Json) (after : After)
      → IsSound self_id max_players a
      → IsSound self_id max_players (flush_list a web e cs after)
  unfolding flush_list
  flush_list-IsSound a web e [] after v = go_on-IsSound a e after v
  flush_list-IsSound a web e (c ∷ cs) after v =
      if_both (IsSound self_id max_players) (web.candidate_ok c) _ _ v
        (flush_list-IsSound a web e cs after v)

  with_pending-IsSame :
      (a : Inner) (e : ℕ) (l : Link) (pending : Option (List Json))
      → Map.get a.links e ≡ some l
      → IsSound self_id max_players a
      → IsSame self_id a.epoch_counter e l (with_pending l pending)
  with_pending-IsSame a e l pending there v =
      let old = v.linked.each e l there in
      record {
        player = refl;
        still_open = refl;
        fine = record {
          named = old.named;
          numbered = old.numbered;
          direction = old.direction;
          buffers = old.buffers;
        };
      }

  flush_candidates-IsSound :
      (a : Inner) (web : Web) (e : ℕ) (after : After)
      → IsSound self_id max_players a
      → IsSound self_id max_players (flush_candidates a web e after)
  unfolding flush_candidates flush_link
  flush_candidates-IsSound a web e after v =
      lookup_cases (IsSound self_id max_players) (Map.get a.links e) _ _ (λ _. v)
        (λ l there.
          lookup_cases (IsSound self_id max_players) l.pending_candidates _ _
            (λ _. go_on-IsSound a e after v)
            (λ pending _.
              flush_list-IsSound _ web e pending after
                (set_link-IsSound a e l _ there (with_pending-IsSame a e l none there v) v)))

  pub offer_taken-IsSound :
      (a : Inner) (web : Web) (e from : ℕ)
      → IsSound self_id max_players a
      → IsSound self_id max_players (offer_taken a web e from)
  unfolding offer_taken
  offer_taken-IsSound a web e from v =
      if_both (IsSound self_id max_players) (not web.fulfilled) _ _ v (
        if_both (IsSound self_id max_players) (is_closed a e) _ _ v
          (flush_candidates-IsSound (put a (remote_set e)) web e (create_answer from) v))

  pub answer_made-IsSound :
      (a : Inner) (web : Web) (e from : ℕ)
      → IsSound self_id max_players a
      → IsSound self_id max_players (answer_made a web e from)
  unfolding answer_made
  answer_made-IsSound a web e from v =
      if_both (IsSound self_id max_players) (not web.fulfilled || is_closed a e) _ _ v v

  pub answer_taken-IsSound :
      (a : Inner) (web : Web) (e : ℕ)
      → IsSound self_id max_players a
      → IsSound self_id max_players (answer_taken a web e)
  unfolding answer_taken
  answer_taken-IsSound a web e v =
      if_both (IsSound self_id max_players) (not web.fulfilled) _ _ v
        (flush_candidates-IsSound (put a (remote_set e)) web e done v)

  handle_offer-IsSound :
      (a : Inner) (web : Web) (from : ℕ) (sdp : Text)
      → a.closed ≡ false
      → IsSound self_id max_players a
      → IsSound self_id max_players (handle_offer a web from sdp)
  unfolding handle_offer
  handle_offer-IsSound a web from sdp live v =
      if_cases (IsSound self_id max_players) (ltb a.self_id from) _ _ (λ _. v)
        (λ down.
          let made = create_link-IsSound a web from false live (ground (arith, v.self)) v in
          lookup_cases (IsSound self_id max_players) (create_link a web from false).1 _ _
            (λ _. made) (λ _ _. made))

  handle_answer-IsSound :
      (a : Inner) (web : Web) (from : ℕ) (sdp : Text)
      → IsSound self_id max_players a
      → IsSound self_id max_players (handle_answer a web from sdp)
  unfolding handle_answer
  handle_answer-IsSound a web from sdp v =
      lookup_cases (IsSound self_id max_players) (Map.get a.peers from) _ _ (λ _. v)
        (λ e _.
          if_both (IsSound self_id max_players)
            (is_closed a e || not (is_have_local_offer (web.signaling_state e))) _ _ v v)

  take_candidate-IsSound :
      (a : Inner) (web : Web) (e : ℕ) (l : Link) (c : Json)
      → Map.get a.links e ≡ some l
      → IsSound self_id max_players a
      → IsSound self_id max_players (take_candidate a web e l c)
  unfolding take_candidate
  take_candidate-IsSound a web e l c there v =
      lookup_cases (IsSound self_id max_players) l.pending_candidates _ _
        (λ _. if_both (IsSound self_id max_players) (web.candidate_ok c) _ _ v v)
        (λ pending _. set_link-IsSound a e l _ there (with_pending-IsSame a e l _ there v) v)

  handle_ice-IsSound :
      (a : Inner) (web : Web) (from : ℕ) (c : Option Json)
      → IsSound self_id max_players a
      → IsSound self_id max_players (handle_ice a web from c)
  unfolding handle_ice take_ice
  handle_ice-IsSound a web from c v =
      lookup_cases (IsSound self_id max_players) (Map.get a.peers from) _ _ (λ _. v)
        (λ e _.
          lookup_cases (IsSound self_id max_players) (Map.get a.links e) _ _ (λ _. v)
            (λ l there. if_both (IsSound self_id max_players) l.closed _ _ v (
              lookup_cases (IsSound self_id max_players) c _ _ (λ _. v)
                (λ c' _. take_candidate-IsSound a web e l c' there v))))

  handle_payload-IsSound :
      (a : Inner) (web : Web) (from : ℕ) (payload : SignalPayload)
      → a.closed ≡ false
      → IsSound self_id max_players a
      → IsSound self_id max_players (handle_payload a web from payload)
  unfolding handle_payload
  handle_payload-IsSound a web from (offer sdp) live v = handle_offer-IsSound a web from sdp live v
  handle_payload-IsSound a web from (answer sdp) live v = handle_answer-IsSound a web from sdp v
  handle_payload-IsSound a web from (ice c) live v = handle_ice-IsSound a web from c v
  handle_payload-IsSound a web from unknown live v = v

  pub handle_signal-IsSound :
      (a : Inner) (web : Web) (from : ℕ) (payload : SignalPayload)
      → IsSound self_id max_players a
      → IsSound self_id max_players (handle_signal a web from payload)
  unfolding handle_signal
  handle_signal-IsSound a web from payload v =
      if_cases (IsSound self_id max_players) (a.closed || from == a.self_id) _ _ (λ _. v)
        (λ live. handle_payload-IsSound a web from payload (ground arith) v)
