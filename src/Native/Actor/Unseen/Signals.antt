-- ===== src/Native/Actor/Unseen/Signals.antt =====
-- The WebRTC signaling of actor.rs under `IsUnseen`.
use lobbylink.Base.{ℕ, refl, false, List, [], ◌∷◌, Option, ltb, if_both, lookup_cases, Text}
use lobbylink.Base.Map
use lobbylink.Base.Map.{get-remove}
use lobbylink.Protocol.{SignalPayload, offer, answer, ice, unknown}
use lobbylink.Protocol.Values.{Json}
use lobbylink.Native.Actor.{Link, Rtc, Actor, remote_set, put}
use lobbylink.Native.Actor.Peers.{create_link}
use lobbylink.Native.Actor.Signals.{
  pass_candidate, pass_candidates, flush_peer, flush_candidates, answer_offer, handle_offer,
  handle_answer, take_candidate, handle_ice, handle_payload, handle_signal,
}
use lobbylink.Native.Actor.Unseen.{
  events, delays, IsUnseen, IsUnseen-refl, IsUnseen-trans, create_link-IsUnseen,
  send_local-IsUnseen,
}

pass_candidate-IsUnseen :
    (a : Actor) (rtc : Rtc) (epoch : ℕ) (c : Json) → IsUnseen a (pass_candidate a rtc epoch c)
unfolding pass_candidate events delays
pass_candidate-IsUnseen a rtc epoch c =
    if_both (IsUnseen a) (rtc.candidate_ok c) _ a
      (record { roster = refl; closed = refl; reported = refl; counts = refl; timers = λ _. refl })
      (IsUnseen-refl a)

pass_candidates-IsUnseen :
    (a : Actor) (rtc : Rtc) (epoch : ℕ) (cs : List Json)
    → IsUnseen a (pass_candidates a rtc epoch cs)
unfolding pass_candidates
pass_candidates-IsUnseen a rtc epoch [] = IsUnseen-refl a
pass_candidates-IsUnseen a rtc epoch (c ∷ cs) =
    IsUnseen-trans a _ _ (pass_candidate-IsUnseen a rtc epoch c)
      (pass_candidates-IsUnseen (pass_candidate a rtc epoch c) rtc epoch cs)

flush_candidates-IsUnseen : (a : Actor) (rtc : Rtc) (k : ℕ) → IsUnseen a (flush_candidates a rtc k)
unfolding flush_candidates flush_peer
flush_candidates-IsUnseen a rtc k =
    lookup_cases (IsUnseen a) (Map.get a.peers k) a _ (λ _. IsUnseen-refl a)
      (λ peer _.
        lookup_cases (IsUnseen a) peer.pending_candidates a _ (λ _. IsUnseen-refl a)
          (λ pending _.
            let passed = pass_candidates-IsUnseen _ rtc peer.link.epoch pending in
            record {
              roster = passed.roster;
              closed = passed.closed;
              reported = passed.reported;
              counts = passed.counts;
              timers = passed.timers;
            }))

-- The remote description is set, then the candidates are flushed.
described-IsUnseen :
    (a : Actor) (rtc : Rtc) (k epoch : ℕ) (sdp : Text)
    → IsUnseen a (flush_candidates (put a (remote_set epoch sdp)) rtc k)
unfolding events delays
described-IsUnseen a rtc k epoch sdp =
    let flushed = flush_candidates-IsUnseen (put a (remote_set epoch sdp)) rtc k in
    record {
      roster = flushed.roster;
      closed = flushed.closed;
      reported = flushed.reported;
      counts = flushed.counts;
      timers = flushed.timers;
    }

answer_offer-IsUnseen :
    (a : Actor) (rtc : Rtc) (k : ℕ) (link : Link) (sdp : Text)
    → IsUnseen a (answer_offer a rtc k link sdp)
unfolding answer_offer
answer_offer-IsUnseen a rtc k link sdp =
    let flushed = described-IsUnseen a rtc k link.epoch sdp in
    if_both (IsUnseen a) _ a _ (IsUnseen-refl a) (
      if_both (IsUnseen a) _ _ _ flushed
        (IsUnseen-trans a _ _ flushed (send_local-IsUnseen _ rtc k answer)))

handle_offer-IsUnseen :
    (a : Actor) (rtc : Rtc) (k : ℕ) (sdp : Text) → IsUnseen a (handle_offer a rtc k sdp)
unfolding handle_offer
handle_offer-IsUnseen a rtc k sdp =
    let made = create_link-IsUnseen a rtc k false in
    if_both (IsUnseen a) (ltb a.self_id k) a _ (IsUnseen-refl a) (
      lookup_cases (IsUnseen a) (create_link a rtc k false).1 _ _ (λ _. made)
        (λ link _. IsUnseen-trans a _ _ made (answer_offer-IsUnseen _ rtc k link sdp)))

handle_answer-IsUnseen :
    (a : Actor) (rtc : Rtc) (k : ℕ) (sdp : Text) → IsUnseen a (handle_answer a rtc k sdp)
unfolding handle_answer
handle_answer-IsUnseen a rtc k sdp =
    lookup_cases (IsUnseen a) (Map.get a.peers k) a _ (λ _. IsUnseen-refl a)
      (λ peer _. if_both (IsUnseen a) _ a _ (IsUnseen-refl a) (
        if_both (IsUnseen a) _ a _ (IsUnseen-refl a)
          (described-IsUnseen a rtc k peer.link.epoch sdp)))

handle_ice-IsUnseen :
    (a : Actor) (rtc : Rtc) (k : ℕ) (candidate : Option Json)
    → IsUnseen a (handle_ice a rtc k candidate)
unfolding handle_ice take_candidate
handle_ice-IsUnseen a rtc k candidate =
    lookup_cases (IsUnseen a) (Map.get a.peers k) a _ (λ _. IsUnseen-refl a)
      (λ peer _. if_both (IsUnseen a) _ a _ (IsUnseen-refl a) (
        lookup_cases (IsUnseen a) candidate a _ (λ _. IsUnseen-refl a)
          (λ c _.
            lookup_cases (IsUnseen a) peer.pending_candidates _ _
              (λ _. pass_candidate-IsUnseen a rtc peer.link.epoch c)
              (λ _ _. record {
                roster = refl;
                closed = refl;
                reported = refl;
                counts = refl;
                timers = λ _. refl;
              }))))

handle_payload-IsUnseen :
    (a : Actor) (rtc : Rtc) (k : ℕ) (payload : SignalPayload)
    → IsUnseen a (handle_payload a rtc k payload)
unfolding handle_payload
handle_payload-IsUnseen a rtc k (offer sdp) = handle_offer-IsUnseen a rtc k sdp
handle_payload-IsUnseen a rtc k (answer sdp) = handle_answer-IsUnseen a rtc k sdp
handle_payload-IsUnseen a rtc k (ice candidate) = handle_ice-IsUnseen a rtc k candidate
handle_payload-IsUnseen a rtc k unknown = IsUnseen-refl a

pub handle_signal-IsUnseen :
    (a : Actor) (rtc : Rtc) (k : ℕ) (payload : SignalPayload)
    → IsUnseen a (handle_signal a rtc k payload)
unfolding handle_signal
handle_signal-IsUnseen a rtc k payload =
    if_both (IsUnseen a) _ a _ (IsUnseen-refl a) (handle_payload-IsUnseen a rtc k payload)
