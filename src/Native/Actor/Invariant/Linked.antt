-- ===== src/Native/Actor/Invariant/Linked.antt =====
-- The maps of links under the making and ending of a link.
use lobbylink.Base.{
  ℕ, ◌+◌, ◌≡◌, ap, sym, ◌∙◌, Bool, List, ◌∷◌, Option, none, some, ltb, if◌then◌else◌, arith,
  Option-cases, lookup_cases, inl, inr, ◌==◌,
}
use lobbylink.Base.Map
use lobbylink.Base.Map.{HashMap, get-insert, get-insert_inv, get-remove}
use lobbylink.Reassembly
use lobbylink.Reassembly.Counters.{new-IsValid}
use lobbylink.Protocol.Values.{Json}
use lobbylink.Native.Actor.{Link, Peer, Actor, contains}
use lobbylink.Native.Actor.Peers.{drop_peer, close_peer, new_link}
use lobbylink.Native.Actor.Invariant.{IsPeer, IsLinked}

abbrev epoch_of : Peer → ℕ
epoch_of peer = peer.link.epoch

-- An epoch that is not used.
pub skip_epoch-IsLinked :
    (self_id counter : ℕ) (peers : HashMap Peer) (closed_links : List ℕ)
    (watch : HashMap (Option Link))
    → IsLinked self_id counter peers closed_links watch
    → IsLinked self_id (counter + 1) peers closed_links watch
skip_epoch-IsLinked self_id counter peers closed_links watch v = record {
  links = λ i p g.
      let old = v.links i p g in
      record {
        id = old.id;
        direction = old.direction;
        numbered = omega (arith, old.numbered);
        alive = old.alive;
        buffers = old.buffers;
      };
  apart = v.apart;
  spent = λ e g. omega (arith, v.spent e g);
  watched = v.watched;
}

module _ {self_id : ℕ} where
  pub drop_peer-IsLinked :
      (a : Actor) (k : ℕ) (peer : Peer)
      → Map.get a.peers k ≡ some peer
      → IsLinked self_id a.epoch_counter a.peers a.closed_links a.link_watch
      → IsLinked self_id a.epoch_counter
          (Map.remove a.peers k)
          (peer.link.epoch ∷ a.closed_links)
          (elim (Map.get a.link_watch k) [
            | none ↦ a.link_watch
            | some _ ↦ Map.insert a.link_watch k none
          ])
  unfolding contains
  drop_peer-IsLinked a k peer h v = record {
    links = λ i p g.
        let there = get-remove a.peers k i in
        let was = v.links i p (ground arith) in
        record {
          id = was.id;
          direction = was.direction;
          numbered = was.numbered;
          alive = ground (arith, was.alive, v.apart k i peer p h);
          buffers = was.buffers;
        };
    apart = λ i j p q g g' e.
        let one = get-remove a.peers k i in
        let two = get-remove a.peers k j in v.apart i j p q (ground arith) (ground arith) e;
    spent = λ e g. ground (arith, v.spent e, (v.links k peer h).numbered);
    watched = λ i w g.
        let there = get-remove a.peers k i in
        elim (Option-cases (Map.get a.link_watch k)) [
          | inl out ↦ ground (arith, v.watched i w)
          | inr (_, was) ↦
              let now = get-insert a.link_watch k i none in ground (arith, v.watched i w)
        ];
  }

  -- A new link under the next epoch, at a player that has none.
  pub add_link-IsLinked :
      (a : Actor) (k : ℕ) (initiator : Bool) (pending : Option (List Json))
      → initiator ≡ ltb self_id k
      → Map.get a.peers k ≡ none
      → IsLinked self_id a.epoch_counter a.peers a.closed_links a.link_watch
      → IsLinked self_id
          (a.epoch_counter + 1)
          (Map.insert a.peers k (record {
            link = new_link a k initiator;
            reassembler = Reassembly.new;
            pending_candidates = pending;
          }))
          a.closed_links
          (Map.insert a.link_watch k (some (new_link a k initiator)))
  add_link-IsLinked a k initiator pending d free v =
      let peer : Peer = record {
        link = new_link a k initiator;
        reassembler = Reassembly.new;
        pending_candidates = pending;
      } in
      let skipped =
        skip_epoch-IsLinked self_id a.epoch_counter a.peers a.closed_links a.link_watch v in
      record {
        links = λ i p g. elim (get-insert_inv a.peers k i peer p g) [
          | inl (at, same) ↦ record {
            id = ground (arith, at, same);
            direction = ground (arith, at, same, d);
            numbered = omega (arith, ap epoch_of same);
            alive = ground (arith, same, v.spent (a.epoch_counter + 1));
            buffers = rw same new-IsValid;
          }
          | inr (other, was) ↦ IsLinked.links skipped i p was
        ];
        apart = λ i j p q g g' e. elim (get-insert_inv a.peers k i peer p g) [
          | inl (at, same) ↦ elim (get-insert_inv a.peers k j peer q g') [
            | inl (at', same') ↦ at ∙ sym at'
            | inr (other, was) ↦
                absurd (omega (arith, ap epoch_of same, e, IsPeer.numbered (v.links j q was)))
          ]
          | inr (other, was) ↦ elim (get-insert_inv a.peers k j peer q g') [
            | inl (at', same') ↦
                absurd (omega (arith, ap epoch_of same', e, IsPeer.numbered (v.links i p was)))
            | inr (other', was') ↦ v.apart i j p q was was' e
          ]
        ];
        spent = λ e g. omega (arith, v.spent e g);
        watched = λ i w g.
            let there = get-insert a.peers k i peer in
            let now = get-insert a.link_watch k i (some (new_link a k initiator)) in
            ground (arith, v.watched i w);
      }

-- Nothing is left of the peer.
pub get-close_peer :
    (a : Actor) (k j : ℕ)
    → Map.get (close_peer a k).peers j ≡ (if k == j then none else Map.get a.peers j)
unfolding close_peer drop_peer
get-close_peer a k j =
    lookup_cases (λ b. Map.get (Actor.peers b) j ≡ (if k == j then none else Map.get a.peers j))
      (Map.get a.peers k) a (drop_peer a k) (λ out. ground arith)
      (λ peer there. get-remove a.peers k j)
