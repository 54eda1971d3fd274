-- ===== src/Native/Actor/Invariant/Internals.antt =====
-- The internal messages end well and keep the invariant.
use lobbylink.Base.{
  ℕ, ◌+◌, ◌*◌, ◌≡◌, refl, true, List, Option, none, some, ltb, not, ◌||◌, arith, if_both, if_cases,
  lookup_cases, ◌==◌, ◌∙◌, ap, Option-cases, inl, inr,
}
use lobbylink.Base.Map
use lobbylink.Base.Map.{HashMap, get-insert_inv}
use lobbylink.Base.Outcome.{◌>>=◌}
use lobbylink.Error.{max_peer_rebuilds}
use lobbylink.Protocol.{ice}
use lobbylink.Events as EventsOf
use lobbylink.Events.{Event}
use lobbylink.Native.Actor.{ConnectionState, Rtc, Actor, Peer, rebuild_timer, query_pair}
use lobbylink.Native.Actor.Peers.{emit}
use lobbylink.Native.Actor.Messages.{
  Internal, ws, ws_closed, ice_found, state_changed, reliable_data, best_effort_data, pair_found,
  rebuild, link_epoch_current, rebuilds, count_failure, handle_peer_failure, act_on_state,
  handle_peer_state, deliver, with_reassembler, handle_reliable, in_room, handle_rebuild,
  handle_internal,
}
use lobbylink.Native.Actor.Invariant.{IsSound, put-IsSound, emit-IsSound}
use lobbylink.Native.Actor.Invariant.Offering.{
  initiate_peer-IsSound, with_peer-IsSound, send_signal-IsSound,
}
use lobbylink.Native.Actor.Invariant.Lobby.{
  with_counts-IsSound, with_fatal-IsSound, handle_server_message-IsSound,
}
use lobbylink.Native.Actor.Invariant.Ends.{IsFired, timer_set-up, receive-IsValid, EndsSound}

peers-emit : (a : Actor) (e : Event) → (emit a e).peers ≡ a.peers
unfolding emit
peers-emit a e = ground arith

module _ {self_id max_players : ℕ} where
  count_failure-IsSound :
      (a : Actor) (k epoch : ℕ)
      → ltb self_id k ≡ true
      → IsSound self_id max_players a
      → IsSound self_id max_players (count_failure a k epoch)
  unfolding count_failure
  count_failure-IsSound a k epoch up v =
      let counted = with_counts-IsSound a (Map.insert a.rebuild_counts k (rebuilds a k + 1)) v in
      if_cases (IsSound self_id max_players) (ltb max_peer_rebuilds (rebuilds a k + 1)) _ _
        (λ _. counted)
        (λ few.
          put-IsSound _ (rebuild_timer k epoch (1000 * (rebuilds a k + 1)))
            (up, omega arith, ground arith) counted)

  handle_peer_failure-IsSound :
      (a : Actor) (k epoch : ℕ)
      → IsSound self_id max_players a
      → IsSound self_id max_players (handle_peer_failure a k epoch)
  unfolding handle_peer_failure
  handle_peer_failure-IsSound a k epoch v =
      lookup_cases (IsSound self_id max_players) (Map.get a.peers k) a _ (λ _. v)
        (λ peer h.
          if_cases (IsSound self_id max_players) (not peer.link.initiator || a.closed) a _ (λ _. v)
            (λ ours.
              count_failure-IsSound a k epoch
                (ground (arith, ours, (v.linked.links k peer h).direction)) v))

  act_on_state-IsSound :
      (a : Actor) (k epoch : ℕ) (state : ConnectionState) (peer : Peer)
      → Map.get a.peers k ≡ some peer
      → IsSound self_id max_players a
      → EndsSound self_id max_players (act_on_state a k epoch state)
  unfolding act_on_state
  act_on_state-IsSound a k epoch ConnectionState.connected peer there v = (
    _,
    ground (arith, there),
    put-IsSound _ (query_pair k epoch) tt (with_counts-IsSound a (Map.remove a.rebuild_counts k) v),
  )
  act_on_state-IsSound a k epoch ConnectionState.failed peer there v =
      (_, refl, handle_peer_failure-IsSound a k epoch v)
  act_on_state-IsSound a k epoch ConnectionState.unspecified peer there v = (a, refl, v)
  act_on_state-IsSound a k epoch ConnectionState.new peer there v = (a, refl, v)
  act_on_state-IsSound a k epoch ConnectionState.connecting peer there v = (a, refl, v)
  act_on_state-IsSound a k epoch ConnectionState.disconnected peer there v = (a, refl, v)
  act_on_state-IsSound a k epoch ConnectionState.closed peer there v = (a, refl, v)

  -- The guard lets only states of a link in the map of peers through.
  handle_peer_state-IsSound :
      (a : Actor) (rtc : Rtc) (k epoch : ℕ) (state : ConnectionState)
      → IsSound self_id max_players a
      → EndsSound self_id max_players (handle_peer_state a rtc k epoch state)
  unfolding handle_peer_state link_epoch_current
  handle_peer_state-IsSound a rtc k epoch state v = elim (Option-cases (Map.get a.peers k)) [
    | inl out ↦ (a, ground (arith, out), v)
    | inr (peer, there) ↦
        if_both (EndsSound self_id max_players) (not (link_epoch_current a k epoch)) _ _
          (a, refl, v)
          (act_on_state-IsSound _ k epoch state peer
            (ap (λ m. Map.get m k)
                (peers-emit a (EventsOf.Event.peer_state k (rtc.state_text state)))
              ∙ there)
            (emit-IsSound a _ v))
  ]

  handle_rebuild-IsSound :
      (a : Actor) (rtc : Rtc) (k epoch : ℕ)
      → ltb self_id k ≡ true
      → IsSound self_id max_players a
      → IsSound self_id max_players (handle_rebuild a rtc k epoch)
  unfolding handle_rebuild
  handle_rebuild-IsSound a rtc k epoch up v = if_both (IsSound self_id max_players) _ a _ v (
      lookup_cases (IsSound self_id max_players) (Map.get a.peers k) a _ (λ _. v)
        (λ peer _. if_both (IsSound self_id max_players) _ a _ v (
          if_both (IsSound self_id max_players) (in_room a k) _ a
            (initiate_peer-IsSound a rtc k up v) v)))

  deliver-IsSound :
      (a : Actor) (k : ℕ) (out : Option (List ℕ))
      → IsSound self_id max_players a
      → IsSound self_id max_players (deliver a k out)
  unfolding deliver
  deliver-IsSound a k none v = v
  deliver-IsSound a k (some bytes) v = emit-IsSound a _ v

  handle_reliable-IsSound :
      (a : Actor) (rtc : Rtc) (k epoch : ℕ) (bytes : List ℕ)
      → IsSound self_id max_players a
      → EndsSound self_id max_players (handle_reliable a rtc k epoch bytes)
  unfolding handle_reliable with_reassembler
  handle_reliable-IsSound a rtc k epoch bytes v =
      lookup_cases (EndsSound self_id max_players) (Map.get a.peers k) _ _ (λ _. (a, refl, v))
        (λ peer h.
          if_both (EndsSound self_id max_players) (not (peer.link.epoch == epoch)) _ _ (a, refl, v)
            (let (r, out, runs, valid) =
                receive-IsValid peer.reassembler bytes rtc.now_ms
                  (v.linked.links k peer h).buffers in
              let kept =
                with_peer-IsSound a k peer (record peer { reassembler = r }) h refl valid
                  (v.flushed k peer h) v in
              (_, rw (runs, ◌>>=◌), deliver-IsSound _ k out kept)))

  pub handle_internal-IsSound :
      (a : Actor) (rtc : Rtc) (i : Internal)
      → IsFired a i
      → IsSound self_id max_players a
      → EndsSound self_id max_players (handle_internal a rtc i)
  unfolding handle_internal
  handle_internal-IsSound a rtc (ws msg) f v = (_, refl, handle_server_message-IsSound a rtc msg v)
  handle_internal-IsSound a rtc ws_closed f v = (
    _,
    refl,
    if_both (IsSound self_id max_players) _ _ a (emit-IsSound _ _ (with_fatal-IsSound a v)) v,
  )
  handle_internal-IsSound a rtc (ice_found k epoch candidate) f v = (
    _,
    refl,
    if_both (IsSound self_id max_players) _ _ a
        (send_signal-IsSound a k (ice (some candidate)) tt v) v,
  )
  handle_internal-IsSound a rtc (state_changed k epoch state) f v =
      handle_peer_state-IsSound a rtc k epoch state v
  handle_internal-IsSound a rtc (reliable_data k epoch bytes) f v =
      handle_reliable-IsSound a rtc k epoch bytes v
  handle_internal-IsSound a rtc (best_effort_data k epoch bytes) f v =
      (_, refl, if_both (IsSound self_id max_players) _ _ a (emit-IsSound a _ v) v)
  handle_internal-IsSound a rtc (pair_found k epoch local remote) f v =
      (_, refl, if_both (IsSound self_id max_players) _ _ a (emit-IsSound a _ v) v)
  handle_internal-IsSound a rtc (rebuild k epoch) f v = (
    _,
    refl,
    handle_rebuild-IsSound a rtc k epoch (timer_set-up self_id k epoch a.log v.outputs f) v,
  )
