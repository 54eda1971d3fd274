-- ===== src/Native/Actor/Signals.antt =====
-- The WebRTC signaling of actor.rs: offers, answers and candidates.
use lobbylink.Base.{
  ℕ, Bool, true, false, List, [], ◌∷◌, ◌++◌, Option, none, some, ltb, ◌==◌, if◌then◌else◌, ◌||◌,
  not, Text,
}
use lobbylink.Base.Map
use lobbylink.Protocol.{SignalPayload, offer, answer, ice, unknown, signal}
use lobbylink.Protocol.Values.{Json}
use lobbylink.Native.Actor.{
  Link, Peer, Rtc, Actor, SignalingState, put, is_closed, ws_send, remote_set, add_candidate,
}
use lobbylink.Native.Actor.Peers.{create_link}

unfoldable pub send_signal : Actor → ℕ → SignalPayload → Actor
send_signal a to payload = if a.closed then a else put a (ws_send (signal to payload))

-- The last calls of an offer or an answer: set the local description, read it, send it.
unfoldable pub send_local : Actor → Rtc → ℕ → (Text → SignalPayload) → Actor
send_local a rtc to payload =
    if not rtc.set_local_ok
    then a
    else (elim rtc.local_description [ none ↦ a | some sdp ↦ send_signal a to (payload sdp) ])

unfoldable pub initiate_peer : Actor → Rtc → ℕ → Actor
initiate_peer a rtc player_id =
    let (a', link) = create_link a rtc player_id true in
    if a.closed then a else (elim link [
      | none ↦ a'
      | some _ ↦ if not rtc.create_offer_ok then a' else send_local a' rtc player_id offer
    ])

-- `add_candidate`: a candidate that does not parse is dropped.
unfoldable pub pass_candidate : Actor → Rtc → ℕ → Json → Actor
pass_candidate a rtc epoch candidate =
    if rtc.candidate_ok candidate then put a (add_candidate epoch candidate) else a

unfoldable pub pass_candidates : Actor → Rtc → ℕ → List Json → Actor
pass_candidates a rtc epoch [] = a
pass_candidates a rtc epoch (c ∷ cs) = pass_candidates (pass_candidate a rtc epoch c) rtc epoch cs

abbrev pub with_pending : Peer → Option (List Json) → Peer
with_pending peer pending = record peer { pending_candidates = pending }

-- `flush_candidates` on the peer that the map has.
unfoldable pub flush_peer : Actor → Rtc → ℕ → Peer → Actor
flush_peer a rtc player_id peer = elim peer.pending_candidates [
  | none ↦ a
  | some pending ↦
      pass_candidates (record a { peers = Map.insert a.peers player_id (with_pending peer none) })
        rtc peer.link.epoch pending
]

unfoldable pub flush_candidates : Actor → Rtc → ℕ → Actor
flush_candidates a rtc player_id = elim (Map.get a.peers player_id) [
  | none ↦ a
  | some peer ↦ flush_peer a rtc player_id peer
]

-- An offer from `from`, once the new link is there.
unfoldable pub answer_offer : Actor → Rtc → ℕ → Link → Text → Actor
answer_offer a rtc from link sdp =
    if not (rtc.sdp_ok sdp) || not rtc.set_remote_ok
    then a
    else let flushed = flush_candidates (put a (remote_set link.epoch sdp)) rtc from in
      if not rtc.create_answer_ok then flushed else send_local flushed rtc from answer

unfoldable pub handle_offer : Actor → Rtc → ℕ → Text → Actor
handle_offer a rtc from sdp =
    let (a', link) = create_link a rtc from false in
    if ltb a.self_id from
    then a
    else (elim link [ none ↦ a' | some l ↦ answer_offer a' rtc from l sdp ])

abbrev pub is_have_local_offer : SignalingState → Bool
is_have_local_offer SignalingState.have_local_offer = true
is_have_local_offer _ = false

unfoldable pub handle_answer : Actor → Rtc → ℕ → Text → Actor
handle_answer a rtc from sdp = elim (Map.get a.peers from) [
  | none ↦ a
  | some peer ↦
      if is_closed a peer.link || not (is_have_local_offer (rtc.signaling_state peer.link.epoch))
      then a
      else if not (rtc.sdp_ok sdp) || not rtc.set_remote_ok
      then a
      else flush_candidates (put a (remote_set peer.link.epoch sdp)) rtc from
]

-- A candidate waits until the remote description is set.
unfoldable pub take_candidate : Actor → Rtc → ℕ → Peer → Json → Actor
take_candidate a rtc from peer candidate = elim peer.pending_candidates [
  | none ↦ pass_candidate a rtc peer.link.epoch candidate
  | some pending ↦ record a {
    peers = Map.insert a.peers from (with_pending peer (some (pending ++ (candidate ∷ []))));
  }
]

unfoldable pub handle_ice : Actor → Rtc → ℕ → Option Json → Actor
handle_ice a rtc from candidate = elim (Map.get a.peers from) [
  | none ↦ a
  | some peer ↦
      if is_closed a peer.link
      then a
      else (elim candidate [ none ↦ a | some c ↦ take_candidate a rtc from peer c ])
]

unfoldable pub handle_payload : Actor → Rtc → ℕ → SignalPayload → Actor
handle_payload a rtc from (offer sdp) = handle_offer a rtc from sdp
handle_payload a rtc from (answer sdp) = handle_answer a rtc from sdp
handle_payload a rtc from (ice candidate) = handle_ice a rtc from candidate
handle_payload a rtc from unknown = a

unfoldable pub handle_signal : Actor → Rtc → ℕ → SignalPayload → Actor
handle_signal a rtc from payload =
    if a.closed || from == a.self_id then a else handle_payload a rtc from payload
