-- ===== src/Native/Actor/Invariant/Signals.antt =====
-- Answers, candidates and the handling of a signal keep the invariant.
use lobbylink.Base.{
  ℕ, ◌≡◌, refl, sym, true, false, List, [], ◌∷◌, Option, none, some, ltb, ◌||◌, not, arith, if_both,
  if_cases, lookup_cases, ◌==◌, Text,
}
use lobbylink.Base.Map
use lobbylink.Base.Map.{get-insert, get-insert_inv}
use lobbylink.Protocol.{SignalPayload, offer, answer, ice, unknown}
use lobbylink.Protocol.Values.{Json}
use lobbylink.Native.Actor.Invariant.{described}
use lobbylink.Native.Actor.{Link, Peer, Rtc, Actor, put, remote_set, add_candidate}
use lobbylink.Native.Actor.Peers.{create_link}
use lobbylink.Native.Actor.Signals.{
  pass_candidate, pass_candidates, with_pending, flush_peer, flush_candidates, answer_offer,
  handle_offer, handle_answer, take_candidate, handle_ice, handle_payload, handle_signal,
}
use lobbylink.Native.Actor.Invariant.{IsPeer, IsSound, put-IsSound}
use lobbylink.Native.Actor.Invariant.Links.{create_link-IsSound}
use lobbylink.Native.Actor.Invariant.Offering.{
  described-remote_set, described-pass_candidate, newest-create_link, with_peer-IsSound,
  send_local-IsSound,
}

module _ {self_id max_players : ℕ} where
  pass_candidate-IsSound :
      (a : Actor) (rtc : Rtc) (epoch : ℕ) (candidate : Json)
      → described epoch a.log ≡ true
      → IsSound self_id max_players a
      → IsSound self_id max_players (pass_candidate a rtc epoch candidate)
  unfolding pass_candidate
  pass_candidate-IsSound a rtc epoch candidate set v =
      if_both (IsSound self_id max_players) (rtc.candidate_ok candidate) _ a
        (put-IsSound a (add_candidate epoch candidate) set v) v

  pass_candidates-IsSound :
      (a : Actor) (rtc : Rtc) (epoch : ℕ) (candidates : List Json)
      → described epoch a.log ≡ true
      → IsSound self_id max_players a
      → IsSound self_id max_players (pass_candidates a rtc epoch candidates)
  unfolding pass_candidates
  pass_candidates-IsSound a rtc epoch [] set v = v
  pass_candidates-IsSound a rtc epoch (c ∷ cs) set v =
      pass_candidates-IsSound (pass_candidate a rtc epoch c) rtc epoch cs
        (described-pass_candidate a rtc epoch c set) (pass_candidate-IsSound a rtc epoch c set v)

  with_pending-IsSound :
      (a : Actor) (k : ℕ) (peer : Peer) (pending : Option (List Json))
      → Map.get a.peers k ≡ some peer
      → (pending ≡ none → described peer.link.epoch a.log ≡ true)
      → IsSound self_id max_players a
      → IsSound self_id max_players
          (record a { peers = Map.insert a.peers k (with_pending peer pending) })
  with_pending-IsSound a k peer pending h ready v =
      with_peer-IsSound a k peer (with_pending peer pending) h refl
        (IsPeer.buffers (v.linked.links k peer h)) ready v

  flush_candidates-IsSound :
      (a : Actor) (rtc : Rtc) (k : ℕ)
      → ((peer : Peer) → Map.get a.peers k ≡ some peer → described peer.link.epoch a.log ≡ true)
      → IsSound self_id max_players a
      → IsSound self_id max_players (flush_candidates a rtc k)
  unfolding flush_candidates flush_peer
  flush_candidates-IsSound a rtc k set v =
      lookup_cases (IsSound self_id max_players) (Map.get a.peers k) a _ (λ _. v)
        (λ peer h.
          lookup_cases (IsSound self_id max_players) peer.pending_candidates a _ (λ _. v)
            (λ pending _.
              pass_candidates-IsSound _ rtc peer.link.epoch pending (set peer h)
                (with_pending-IsSound a k peer none h (λ _. set peer h) v)))

  answer_offer-IsSound :
      (a : Actor) (rtc : Rtc) (from : ℕ) (link : Link) (sdp : Text)
      → ltb from self_id ≡ true
      → ((peer : Peer) → Map.get a.peers from ≡ some peer → peer.link ≡ link)
      → IsSound self_id max_players a
      → IsSound self_id max_players (answer_offer a rtc from link sdp)
  unfolding answer_offer
  answer_offer-IsSound a rtc from link sdp down newest v =
      let flushed =
        flush_candidates-IsSound (put a (remote_set link.epoch sdp)) rtc from
          (λ peer h. described-remote_set link peer sdp a.log (newest peer h))
          (put-IsSound a (remote_set link.epoch sdp) tt v) in
      if_both (IsSound self_id max_players) (not (rtc.sdp_ok sdp) || not rtc.set_remote_ok) a _ v (
        if_both (IsSound self_id max_players) (not rtc.create_answer_ok) _ _ flushed
          (send_local-IsSound _ rtc from answer (λ sdp'. down) flushed))

  handle_offer-IsSound :
      (a : Actor) (rtc : Rtc) (from : ℕ) (sdp : Text)
      → (from == self_id) ≡ false
      → IsSound self_id max_players a
      → IsSound self_id max_players (handle_offer a rtc from sdp)
  unfolding handle_offer
  handle_offer-IsSound a rtc from sdp other v =
      if_cases (IsSound self_id max_players) (ltb a.self_id from) a _ (λ _. v)
        (λ above.
          let not_up : ltb self_id from ≡ false = ground (arith, above, v.self) in
          let created = create_link-IsSound a rtc from false (sym not_up) v in
          lookup_cases (IsSound self_id max_players) (create_link a rtc from false).1 _ _
            (λ _. created)
            (λ link made.
              answer_offer-IsSound _ rtc from link sdp (ground arith)
                (newest-create_link a rtc from link made) created))

  handle_answer-IsSound :
      (a : Actor) (rtc : Rtc) (from : ℕ) (sdp : Text)
      → IsSound self_id max_players a
      → IsSound self_id max_players (handle_answer a rtc from sdp)
  unfolding handle_answer
  handle_answer-IsSound a rtc from sdp v =
      lookup_cases (IsSound self_id max_players) (Map.get a.peers from) a _ (λ _. v)
        (λ peer h. if_both (IsSound self_id max_players) _ a _ v (
          if_both (IsSound self_id max_players) _ a _ v (
            flush_candidates-IsSound (put a (remote_set peer.link.epoch sdp)) rtc from
              (λ p g. described-remote_set peer.link p sdp a.log (cc (h, g)))
              (put-IsSound a (remote_set peer.link.epoch sdp) tt v))))

  handle_ice-IsSound :
      (a : Actor) (rtc : Rtc) (from : ℕ) (candidate : Option Json)
      → IsSound self_id max_players a
      → IsSound self_id max_players (handle_ice a rtc from candidate)
  unfolding handle_ice take_candidate
  handle_ice-IsSound a rtc from candidate v =
      lookup_cases (IsSound self_id max_players) (Map.get a.peers from) a _ (λ _. v)
        (λ peer h. if_both (IsSound self_id max_players) _ a _ v (
          lookup_cases (IsSound self_id max_players) candidate a _ (λ _. v)
            (λ c _.
              lookup_cases (IsSound self_id max_players) peer.pending_candidates _ _
                (λ n. pass_candidate-IsSound a rtc peer.link.epoch c (v.flushed from peer h n) v)
                (λ pending _. with_pending-IsSound a from peer _ h (λ n. cc) v))))

  handle_payload-IsSound :
      (a : Actor) (rtc : Rtc) (from : ℕ) (payload : SignalPayload)
      → (from == self_id) ≡ false
      → IsSound self_id max_players a
      → IsSound self_id max_players (handle_payload a rtc from payload)
  unfolding handle_payload
  handle_payload-IsSound a rtc from (offer sdp) other v =
      handle_offer-IsSound a rtc from sdp other v
  handle_payload-IsSound a rtc from (answer sdp) other v = handle_answer-IsSound a rtc from sdp v
  handle_payload-IsSound a rtc from (ice candidate) other v =
      handle_ice-IsSound a rtc from candidate v
  handle_payload-IsSound a rtc from unknown other v = v

  pub handle_signal-IsSound :
      (a : Actor) (rtc : Rtc) (from : ℕ) (payload : SignalPayload)
      → IsSound self_id max_players a
      → IsSound self_id max_players (handle_signal a rtc from payload)
  unfolding handle_signal
  handle_signal-IsSound a rtc from payload v =
      if_cases (IsSound self_id max_players) (a.closed || from == a.self_id) a _ (λ _. v)
        (λ other. handle_payload-IsSound a rtc from payload (ground (arith, other, v.self)) v)
