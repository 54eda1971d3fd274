-- ===== src/Native/Actor/Invariant/Links.antt =====
-- Making and ending links keeps the invariant.
use lobbylink.Base.{
  ℕ, ◌≡◌, ◌∙◌, Bool, List, [], ◌∷◌, Option, none, some, ltb, arith, if_cases, lookup_cases, inl,
  inr,
}
use lobbylink.Base.Map
use lobbylink.Base.Map.{HashMap, get-insert, get-insert_inv, get-remove}
use lobbylink.Native.Actor.{Link, Peer, Rtc, Actor}
use lobbylink.Native.Actor.Peers.{
  drop_peer, close_peer, close_peers, teardown_peers, add_link, create_link,
}
use lobbylink.Native.Actor.Invariant.{described_later, IsSound}
use lobbylink.Native.Actor.Invariant.Linked.{
  skip_epoch-IsLinked, drop_peer-IsLinked, add_link-IsLinked, get-close_peer,
}

module _ {self_id max_players : ℕ} where
  drop_peer-IsSound :
      (a : Actor) (k : ℕ) (peer : Peer)
      → Map.get a.peers k ≡ some peer
      → IsSound self_id max_players a
      → IsSound self_id max_players (drop_peer a k peer)
  unfolding drop_peer
  drop_peer-IsSound a k peer h v = record {
    self = v.self;
    slots = v.slots;
    roster = v.roster;
    shared = v.shared;
    linked = drop_peer-IsLinked a k peer h v.linked;
    outputs = (tt, v.outputs);
    flushed = λ i p g n.
        let there = get-remove a.peers k i in
        described_later p.link.epoch _ a.log (v.flushed i p (ground arith) n);
  }

  pub close_peer-IsSound :
      (a : Actor) (k : ℕ)
      → IsSound self_id max_players a
      → IsSound self_id max_players (close_peer a k)
  unfolding close_peer
  close_peer-IsSound a k v =
      lookup_cases (IsSound self_id max_players) (Map.get a.peers k) a (drop_peer a k) (λ _. v)
        (λ peer h. drop_peer-IsSound a k peer h v)

  close_peers-IsSound :
      (ids : List ℕ) (a : Actor)
      → IsSound self_id max_players a
      → IsSound self_id max_players (close_peers ids a)
  unfolding close_peers
  close_peers-IsSound [] a v = v
  close_peers-IsSound (id ∷ ids) a v =
      close_peers-IsSound ids (close_peer a id) (close_peer-IsSound a id v)

  pub teardown_peers-IsSound :
      (a : Actor) → IsSound self_id max_players a → IsSound self_id max_players (teardown_peers a)
  unfolding teardown_peers Map.get
  teardown_peers-IsSound a v =
      let torn = close_peers-IsSound (Map.keys a.peers) a v in
      record {
        self = torn.self;
        slots = torn.slots;
        roster = torn.roster;
        shared = torn.shared;
        linked = record {
          links = torn.linked.links;
          apart = torn.linked.apart;
          spent = torn.linked.spent;
          watched = λ i w g. cc;
        };
        outputs = torn.outputs;
        flushed = torn.flushed;
      }

  add_link-IsSound :
      (a : Actor) (k : ℕ) (initiator : Bool)
      → initiator ≡ ltb self_id k
      → Map.get a.peers k ≡ none
      → IsSound self_id max_players a
      → IsSound self_id max_players (add_link a k initiator)
  unfolding add_link
  add_link-IsSound a k initiator d free v = record {
    self = v.self;
    slots = v.slots;
    roster = v.roster;
    shared = v.shared;
    linked = add_link-IsLinked a k initiator (some []) d free v.linked;
    outputs = (tt, v.outputs);
    flushed = λ i p g n. elim (get-insert_inv a.peers k i _ p g) [
      | inl (at, now) ↦ cc
      | inr (other, was) ↦ described_later p.link.epoch _ a.log (v.flushed i p was n)
    ];
  }

  -- Also when the webrtc crate makes no connection.
  pub create_link-IsSound :
      (a : Actor) (rtc : Rtc) (k : ℕ) (initiator : Bool)
      → initiator ≡ ltb self_id k
      → IsSound self_id max_players a
      → IsSound self_id max_players (create_link a rtc k initiator).0
  unfolding create_link
  create_link-IsSound a rtc k initiator d v =
      let closed = close_peer-IsSound a k v in
      if_cases (λ (r : Actor × Option Link). IsSound self_id max_players r.0) rtc.new_link_ok _ _
        (λ _.
          add_link-IsSound (close_peer a k) k initiator d (get-close_peer a k k ∙ ground arith)
            closed)
        (λ _. record {
          self = closed.self;
          slots = closed.slots;
          roster = closed.roster;
          shared = closed.shared;
          linked = skip_epoch-IsLinked self_id _ _ _ _ closed.linked;
          outputs = closed.outputs;
          flushed = closed.flushed;
        })
