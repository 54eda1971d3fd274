-- ===== src/Native/Actor/Invariant/Offering.antt =====
-- Changes of one peer, messages to the lobby and the offer for a new link keep the invariant.
use lobbylink.Base.{
  ℕ, ◌≡◌, refl, ap, sym, ◌∙◌, true, false, List, ◌∷◌, none, some, ltb, not, arith, if_both,
  lookup_cases, inl, inr, Text,
}
use lobbylink.Base.Map
use lobbylink.Base.Map.{get-insert, get-insert_inv}
use lobbylink.Protocol.{SignalPayload, offer, signal}
use lobbylink.Protocol.Values.{Json}
use lobbylink.Reassembly.Counters.{IsValid}
use lobbylink.Native.Actor.Invariant.{described, described_later}
use lobbylink.Native.Actor.{Output, Link, Peer, Rtc, Actor, ws_send, remote_set}
use lobbylink.Native.Actor.Peers.{create_link, add_link}
use lobbylink.Native.Actor.Signals.{send_signal, send_local, initiate_peer, pass_candidate}
use lobbylink.Native.Actor.Invariant.{IsSound, IsDirected, put-IsSound}
use lobbylink.Native.Actor.Invariant.Links.{create_link-IsSound}

-- A peer after the change has the epoch of the peer before.
before_insert :
    (a : Actor) (k i : ℕ) (old new p : Peer)
    → Map.get a.peers k ≡ some old
    → new.link ≡ old.link
    → Map.get (Map.insert a.peers k new) i ≡ some p
    → (p' : Peer) × (Map.get a.peers i ≡ some p') × (p'.link.epoch ≡ p.link.epoch)
before_insert a k i old new p h same g = elim (get-insert_inv a.peers k i new p g) [
  | inl (at, now) ↦ (old, ap (Map.get a.peers) at ∙ h, ground (arith, now, same))
  | inr (other, was) ↦ (p, was, refl)
]

pub described-remote_set :
    (link : Link) (peer : Peer) (sdp : Text) (log : List Output)
    → peer.link ≡ link
    → described peer.link.epoch (remote_set link.epoch sdp ∷ log) ≡ true
unfolding described
described-remote_set link peer sdp log same = ground (arith, ap (λ (l : Link). l.epoch) same)

pub described-pass_candidate :
    (a : Actor) (rtc : Rtc) (epoch : ℕ) (candidate : Json)
    → described epoch a.log ≡ true
    → described epoch (pass_candidate a rtc epoch candidate).log ≡ true
unfolding pass_candidate
described-pass_candidate a rtc epoch candidate set =
    if_both (λ (b : Actor). described epoch b.log ≡ true) (rtc.candidate_ok candidate) _ a
      (described_later epoch _ a.log set) set

-- The link that is made is the one in the map.
pub newest-create_link :
    (a : Actor) (rtc : Rtc) (k : ℕ) (link : Link)
    → (create_link a rtc k false).1 ≡ some link
    → (peer : Peer) → Map.get (create_link a rtc k false).0.peers k ≡ some peer
    → peer.link ≡ link
unfolding create_link add_link Map.insert Map.get
newest-create_link a rtc k link made peer there = ground (arith, made, there)

module _ {self_id max_players : ℕ} where
  -- The peer's link is kept; its buffers stay consistent.
  pub with_peer-IsSound :
      (a : Actor) (k : ℕ) (old new : Peer)
      → Map.get a.peers k ≡ some old
      → new.link ≡ old.link
      → IsValid new.reassembler
      → (new.pending_candidates ≡ none → described new.link.epoch a.log ≡ true)
      → IsSound self_id max_players a
      → IsSound self_id max_players (record a { peers = Map.insert a.peers k new })
  with_peer-IsSound a k old new h same valid ready v = record {
    self = v.self;
    slots = v.slots;
    roster = v.roster;
    shared = v.shared;
    linked = record {
      links = λ i p g. elim (get-insert_inv a.peers k i new p g) [
        | inl (at, now) ↦
            let was = v.linked.links k old h in
            record {
              id = ground (arith, at, now, same, was.id);
              direction = ground (arith, at, now, same, was.direction);
              numbered = ground (arith, at, now, same, was.numbered);
              alive = ground (arith, at, now, same, was.alive);
              buffers = rw now valid;
            }
        | inr (other, was) ↦ v.linked.links i p was
      ];
      apart = λ i j p q g g' e.
          let (p', one, same_p) = before_insert a k i old new p h same g in
          let (q', two, same_q) = before_insert a k j old new q h same g' in
          v.linked.apart i j p' q' one two (same_p ∙ (e ∙ sym same_q));
      spent = v.linked.spent;
      watched = λ i w g.
          let there = get-insert a.peers k i new in ground (arith, v.linked.watched i w g, same);
    };
    outputs = v.outputs;
    flushed = λ i p g n. elim (get-insert_inv a.peers k i new p g) [
      | inl (at, now) ↦
          ap (λ (q : Peer). described q.link.epoch a.log) now
          ∙ ready (ap (λ (q : Peer). q.pending_candidates) (sym now) ∙ n)
      | inr (other, was) ↦ v.flushed i p was n
    ];
  }

  pub send_signal-IsSound :
      (a : Actor) (to : ℕ) (payload : SignalPayload)
      → IsDirected self_id to payload
      → IsSound self_id max_players a
      → IsSound self_id max_players (send_signal a to payload)
  unfolding send_signal
  send_signal-IsSound a to payload d v =
      if_both (IsSound self_id max_players) a.closed a _ v
        (put-IsSound a (ws_send (signal to payload)) d v)

  pub send_local-IsSound :
      (a : Actor) (rtc : Rtc) (to : ℕ) (payload : Text → SignalPayload)
      → ((sdp : Text) → IsDirected self_id to (payload sdp))
      → IsSound self_id max_players a
      → IsSound self_id max_players (send_local a rtc to payload)
  unfolding send_local
  send_local-IsSound a rtc to payload d v =
      if_both (IsSound self_id max_players) (not rtc.set_local_ok) a _ v (
        lookup_cases (IsSound self_id max_players) rtc.local_description a _ (λ _. v)
          (λ sdp _. send_signal-IsSound a to (payload sdp) (d sdp) v))

  pub initiate_peer-IsSound :
      (a : Actor) (rtc : Rtc) (k : ℕ)
      → ltb self_id k ≡ true
      → IsSound self_id max_players a
      → IsSound self_id max_players (initiate_peer a rtc k)
  unfolding initiate_peer
  initiate_peer-IsSound a rtc k up v =
      let created = create_link-IsSound a rtc k true (sym up) v in
      if_both (IsSound self_id max_players) a.closed a _ v (
        lookup_cases (IsSound self_id max_players) (create_link a rtc k true).1 _ _ (λ _. created)
          (λ link _.
            if_both (IsSound self_id max_players) (not rtc.create_offer_ok) _ _ created
              (send_local-IsSound _ rtc k offer (λ sdp. up) created)))
