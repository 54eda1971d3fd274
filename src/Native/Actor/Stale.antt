-- ===== src/Native/Actor/Stale.antt =====
-- The epochs of links: callbacks of a link that is not the player's current one change nothing.
use lobbylink.Base.{
  ℕ, List, [], ◌+◌, ◌≤◌, ◌≡◌, refl, Bool, true, false, Option, none, some, arith, lookup_cases,
  Bool-cases, Option-cases, inl, inr,
}
use lobbylink.Base.Map
use lobbylink.Base.Map.{get-insert}
use lobbylink.Base.Outcome.{ok}
use lobbylink.Reassembly
use lobbylink.Native.Actor.{Link, Rtc, Actor}
use lobbylink.Native.Actor.Peers.{drop_peer, close_peer, new_link, add_link, create_link}
use lobbylink.Native.Actor.Messages.{
  Internal, ws, ws_closed, ice_found, state_changed, reliable_data, best_effort_data, pair_found,
  rebuild, link_epoch_current, handle_peer_state, handle_reliable, handle_rebuild, handle_internal,
}
use lobbylink.Native.Actor.Invariant.{IsSound, IsPeer, IsLinked}
use lobbylink.Native.Actor.Invariant.Links.{close_peer-IsSound}
use lobbylink.Native.Actor.Invariant.Linked.{get-close_peer}

-- The player and the epoch of a callback.
unfoldable pub about : Internal → Option (ℕ × ℕ)
about (ws msg) = none
about ws_closed = none
about (ice_found id epoch candidate) = some (id, epoch)
about (state_changed id epoch state) = some (id, epoch)
about (reliable_data id epoch bytes) = some (id, epoch)
about (best_effort_data id epoch bytes) = some (id, epoch)
about (pair_found id epoch local remote) = some (id, epoch)
about (rebuild id epoch) = some (id, epoch)

stale_reliable :
    (self_id max_players : ℕ) (a : Actor) (rtc : Rtc) (id epoch : ℕ) (bytes : List ℕ)
    → IsSound self_id max_players a
    → link_epoch_current a id epoch ≡ false
    → handle_reliable a rtc id epoch bytes ≡ ok a
unfolding handle_reliable link_epoch_current
stale_reliable self_id max_players a rtc id epoch bytes v stale =
    elim (Option-cases (Map.get a.peers id)) [
      | inl out ↦ ground (arith, out)
      | inr (peer, there) ↦
          let alive = IsPeer.alive (v.linked.links id peer there) in
          ground (arith, there, alive, stale)
    ]

-- In a state of the session, a callback that names a player and an epoch which is not the epoch of
-- the player's open link does nothing at all, whichever callback it is.
pub handle_internal_stale :
    (self_id max_players : ℕ) (a : Actor) (rtc : Rtc) (i : Internal) (id epoch : ℕ)
    → IsSound self_id max_players a
    → about i ≡ some (id, epoch)
    → link_epoch_current a id epoch ≡ false
    → handle_internal a rtc i ≡ ok a
unfolding handle_internal handle_peer_state handle_rebuild about
handle_internal_stale s m a rtc (ws msg) id epoch v h stale = cc
handle_internal_stale s m a rtc ws_closed id epoch v h stale = cc
handle_internal_stale s m a rtc (ice_found j e candidate) id epoch v h stale = ground arith
handle_internal_stale s m a rtc (state_changed j e state) id epoch v h stale = ground arith
handle_internal_stale s m a rtc (reliable_data j e bytes) id epoch v h stale =
    ground (arith, stale_reliable s m a rtc j e bytes v)
handle_internal_stale s m a rtc (best_effort_data j e bytes) id epoch v h stale = ground arith
handle_internal_stale s m a rtc (pair_found j e local remote) id epoch v h stale = ground arith
handle_internal_stale s m a rtc (rebuild j e) id epoch v h stale = ground arith

epoch_counter-close_peer : (a : Actor) (k : ℕ) → (close_peer a k).epoch_counter ≡ a.epoch_counter
unfolding close_peer drop_peer
epoch_counter-close_peer a k =
    lookup_cases (λ b. Actor.epoch_counter b ≡ a.epoch_counter) (Map.get a.peers k) a
      (drop_peer a k) (λ _. refl) (λ _ _. refl)

-- A new link to a player makes the callbacks of every earlier link to that player stale, also when
-- the webrtc crate makes no connection for it; and if it makes one, that link is the current one.
pub create_link_current :
    (self_id max_players : ℕ) (a : Actor) (rtc : Rtc) (k : ℕ) (initiator : Bool)
    → IsSound self_id max_players a
    → ((epoch : ℕ)
        → epoch ≤ a.epoch_counter
        → link_epoch_current (create_link a rtc k initiator).0 k epoch ≡ false)
      × ((link : Link)
          → (create_link a rtc k initiator).1 ≡ some link
          → link_epoch_current (create_link a rtc k initiator).0 k link.epoch ≡ true)
unfolding create_link link_epoch_current add_link
create_link_current s m a rtc k initiator v = (
  λ epoch old. ground (
    arith,
    get-close_peer a k k,
    get-insert (close_peer a k).peers k k (record {
      link = new_link (close_peer a k) k initiator;
      reassembler = Reassembly.new;
      pending_candidates = some [];
    }),
    epoch_counter-close_peer a k,
  ),
  λ link made. elim (Bool-cases rtc.new_link_ok) [
    | inl good ↦
        let spent =
          IsLinked.spent (IsSound.linked (close_peer-IsSound a k v))
            ((close_peer a k).epoch_counter + 1) in
        ground (
          arith,
          good,
          made,
          spent,
          get-insert (close_peer a k).peers k k (record {
            link = new_link (close_peer a k) k initiator;
            reassembler = Reassembly.new;
            pending_candidates = some [];
          }),
        )
    | inr bad ↦ ground (arith, bad, made)
  ],
)
