-- ===== src/Native/Actor/Failures/Handlers.antt =====
-- What each handler does to the rebuild timers and the counted failures of one player.
use lobbylink.Base.{
  ℕ, ◌≡◌, Bool, false, List, [], ◌∷◌, none, some, if◌then◌else◌, arith, ◌==◌, if_both, not, ◌&&◌,
  lookup_cases, Text, Option,
}
use lobbylink.Base.Map
use lobbylink.Base.Map.{get-remove}
use lobbylink.Base.Outcome.{Outcome, ok, err, panic, >>=_cases}
use lobbylink.Events.{explicit_leave, disconnected, from_wire}
use lobbylink.Events as EventsOf
use lobbylink.Protocol.{
  ServerMessage, joined, player_joined, player_left, player_rejoined, player_replaced, room_started,
  signal_from, error, unknown_message, is_fatal_code, is_game_over_code, ice,
}
use lobbylink.Roster.{PlayerInfo}
use lobbylink.Native.Receive.{receive}
use lobbylink.Native.Actor.{ConnectionState, Rtc, Actor}
use lobbylink.Native.Actor.Peers.{sync_roster}
use lobbylink.Native.Actor.Lobby.{reset_peer, handle_error, handle_server_message}
use lobbylink.Native.Actor.Messages.{
  Internal, ws, ws_closed, ice_found, state_changed, reliable_data, best_effort_data, pair_found,
  rebuild, Cmd, send_reliable, send_best_effort, broadcast_best_effort, act_on_state,
  handle_peer_state, deliver, with_reassembler, handle_reliable, handle_rebuild, in_room,
  handle_internal, best_effort_to, best_effort_to_all, watch_link, open_queue, handle_cmd,
}
use lobbylink.Native.Actor.Unseen.{
  delays, reset_peer-IsReset, initiate_peer-IsUnseen, send_signal-IsUnseen,
}
use lobbylink.Native.Actor.Unseen.Signals.{handle_signal-IsUnseen}
use lobbylink.Native.Actor.Effects.{close_if_left-IsUnseen, game_over-IsUnseen}
use lobbylink.Native.Actor.Failures.{
  IsBackedOff, same-IsBackedOff, unseen-IsBackedOff, emit-IsBackedOff,
  handle_peer_failure-IsBackedOff,
}

-- The failures of the player are forgotten: the player joins, comes back or is replaced.
abbrev pub is_reset_message : ℕ → ServerMessage → Bool
is_reset_message id (player_joined k players) = k == id
is_reset_message id (player_rejoined k was_replacement) = k == id
is_reset_message id (player_replaced k) = k == id
is_reset_message id _ = false

-- Or the connection to the player is made.
abbrev pub is_reset : ℕ → Internal → Bool
is_reset id (ws msg) = is_reset_message id msg
is_reset id (state_changed k epoch ConnectionState.connected) = k == id
is_reset id _ = false

module _ (id : ℕ) (earlier : List ℕ) where
  -- A handler that ends well ends in such an actor.
  abbrev pub EndsBackedOff : Outcome ⊥ Actor → Type 0
  EndsBackedOff (ok a) = IsBackedOff id earlier a
  EndsBackedOff (err e) = Unit
  EndsBackedOff panic = Unit

  reset_peer-IsBackedOff :
      (a : Actor) (rtc : Rtc) (k : ℕ)
      → (k == id) ≡ false
      → IsBackedOff id earlier a
      → IsBackedOff id earlier (reset_peer a rtc k)
  reset_peer-IsBackedOff a rtc k other v =
      let reset = reset_peer-IsReset a rtc k in
      same-IsBackedOff id earlier a (reset_peer a rtc k) (reset.others id other) (reset.timers id) v

  handle_error-IsBackedOff :
      (a : Actor) (code message : Text)
      → IsBackedOff id earlier a
      → IsBackedOff id earlier (handle_error a code message)
  unfolding handle_error
  handle_error-IsBackedOff a code message v =
      if_both (IsBackedOff id earlier) (is_fatal_code code) _ _
        (emit-IsBackedOff id earlier _ _ (
          if_both (IsBackedOff id earlier) (is_game_over_code code) _ _
            (unseen-IsBackedOff id earlier _ _ (game_over-IsUnseen _ code) v) v))
        (emit-IsBackedOff id earlier a _ v)

  handle_server_message-IsBackedOff :
      (a : Actor) (rtc : Rtc) (msg : ServerMessage)
      → is_reset_message id msg ≡ false
      → IsBackedOff id earlier a
      → IsBackedOff id earlier (handle_server_message a rtc msg)
  unfolding handle_server_message sync_roster
  handle_server_message-IsBackedOff a rtc (player_joined k players) other v =
      reset_peer-IsBackedOff _ rtc k other (emit-IsBackedOff id earlier _ _ v)
  handle_server_message-IsBackedOff a rtc (player_left k reason) other v =
      emit-IsBackedOff id earlier _ _
        (unseen-IsBackedOff id earlier _ _ (close_if_left-IsUnseen _ k (from_wire reason)) v)
  handle_server_message-IsBackedOff a rtc (player_rejoined k was_replacement) other v =
      reset_peer-IsBackedOff _ rtc k other (emit-IsBackedOff id earlier _ _ v)
  handle_server_message-IsBackedOff a rtc (player_replaced k) other v =
      reset_peer-IsBackedOff _ rtc k other (emit-IsBackedOff id earlier _ _ v)
  handle_server_message-IsBackedOff a rtc room_started other v = emit-IsBackedOff id earlier _ _ v
  handle_server_message-IsBackedOff a rtc (signal_from from payload) other v =
      unseen-IsBackedOff id earlier a _ (handle_signal-IsUnseen a rtc from payload) v
  handle_server_message-IsBackedOff a rtc (error code message) other v =
      handle_error-IsBackedOff a code message v
  handle_server_message-IsBackedOff a rtc (joined msg) other v = v
  handle_server_message-IsBackedOff a rtc unknown_message other v = v

  connected-IsBackedOff :
      (a : Actor) (k epoch : ℕ)
      → (k == id) ≡ false
      → IsBackedOff id earlier a
      → EndsBackedOff (act_on_state a k epoch ConnectionState.connected)
  unfolding act_on_state delays
  connected-IsBackedOff a k epoch other v =
      lookup_cases EndsBackedOff (Map.get a.peers k) _ _ (λ _. tt)
        (λ peer _. ground (arith, v, other, get-remove a.rebuild_counts k id))

  act_on_state-IsBackedOff :
      (a : Actor) (k epoch : ℕ) (state : ConnectionState)
      → is_reset id (state_changed k epoch state) ≡ false
      → IsBackedOff id earlier a
      → EndsBackedOff (act_on_state a k epoch state)
  unfolding act_on_state
  act_on_state-IsBackedOff a k epoch ConnectionState.connected other v =
      connected-IsBackedOff a k epoch other v
  act_on_state-IsBackedOff a k epoch ConnectionState.failed other v =
      handle_peer_failure-IsBackedOff id earlier a k epoch v
  act_on_state-IsBackedOff a k epoch ConnectionState.unspecified other v = v
  act_on_state-IsBackedOff a k epoch ConnectionState.new other v = v
  act_on_state-IsBackedOff a k epoch ConnectionState.connecting other v = v
  act_on_state-IsBackedOff a k epoch ConnectionState.disconnected other v = v
  act_on_state-IsBackedOff a k epoch ConnectionState.closed other v = v

  deliver-IsBackedOff :
      (a : Actor) (k : ℕ) (out : Option (List ℕ))
      → IsBackedOff id earlier a
      → IsBackedOff id earlier (deliver a k out)
  unfolding deliver
  deliver-IsBackedOff a k none v = v
  deliver-IsBackedOff a k (some message) v = emit-IsBackedOff id earlier a _ v

  handle_reliable-IsBackedOff :
      (a : Actor) (rtc : Rtc) (k epoch : ℕ) (bytes : List ℕ)
      → IsBackedOff id earlier a
      → EndsBackedOff (handle_reliable a rtc k epoch bytes)
  unfolding handle_reliable with_reassembler
  handle_reliable-IsBackedOff a rtc k epoch bytes v =
      lookup_cases EndsBackedOff (Map.get a.peers k) _ _ (λ _. v)
        (λ peer _. if_both EndsBackedOff _ (ok a) _ v (
          >>=_cases EndsBackedOff (receive peer.reassembler bytes rtc.now_ms) _
            (λ r _. deliver-IsBackedOff (with_reassembler a k peer r.0) k r.1 v) (λ e. tt)
            (λ _. tt)))

  handle_rebuild-IsBackedOff :
      (a : Actor) (rtc : Rtc) (k epoch : ℕ)
      → IsBackedOff id earlier a
      → IsBackedOff id earlier (handle_rebuild a rtc k epoch)
  unfolding handle_rebuild
  handle_rebuild-IsBackedOff a rtc k epoch v = if_both (IsBackedOff id earlier) _ a _ v (
      lookup_cases (IsBackedOff id earlier) (Map.get a.peers k) a _ (λ _. v)
        (λ peer _. if_both (IsBackedOff id earlier) _ a _ v (
          if_both (IsBackedOff id earlier) (in_room a k) _ a
            (unseen-IsBackedOff id earlier a _ (initiate_peer-IsUnseen a rtc k) v) v)))

  handle_peer_state-IsBackedOff :
      (a : Actor) (rtc : Rtc) (k epoch : ℕ) (state : ConnectionState)
      → is_reset id (state_changed k epoch state) ≡ false
      → IsBackedOff id earlier a
      → EndsBackedOff (handle_peer_state a rtc k epoch state)
  unfolding handle_peer_state
  handle_peer_state-IsBackedOff a rtc k epoch state other v = if_both EndsBackedOff _ (ok a) _ v (
      act_on_state-IsBackedOff _ k epoch state other
        (emit-IsBackedOff id earlier a (EventsOf.Event.peer_state k (rtc.state_text state)) v))

  pub handle_internal-IsBackedOff :
      (a : Actor) (rtc : Rtc) (i : Internal)
      → is_reset id i ≡ false
      → IsBackedOff id earlier a
      → EndsBackedOff (handle_internal a rtc i)
  unfolding handle_internal
  handle_internal-IsBackedOff a rtc (ws msg) other v =
      handle_server_message-IsBackedOff a rtc msg other v
  handle_internal-IsBackedOff a rtc ws_closed other v =
      if_both (IsBackedOff id earlier) _ _ a (emit-IsBackedOff id earlier _ _ v) v
  handle_internal-IsBackedOff a rtc (ice_found k epoch candidate) other v =
      if_both (IsBackedOff id earlier) _ _ a
        (unseen-IsBackedOff id earlier a _ (send_signal-IsUnseen a k (ice (some candidate))) v) v
  handle_internal-IsBackedOff a rtc (state_changed k epoch state) other v =
      handle_peer_state-IsBackedOff a rtc k epoch state other v
  handle_internal-IsBackedOff a rtc (reliable_data k epoch bytes) other v =
      handle_reliable-IsBackedOff a rtc k epoch bytes v
  handle_internal-IsBackedOff a rtc (best_effort_data k epoch bytes) other v =
      if_both (IsBackedOff id earlier) _ _ a (emit-IsBackedOff id earlier a _ v) v
  handle_internal-IsBackedOff a rtc (pair_found k epoch local remote) other v =
      if_both (IsBackedOff id earlier) _ _ a (emit-IsBackedOff id earlier a _ v) v
  handle_internal-IsBackedOff a rtc (rebuild k epoch) other v =
      handle_rebuild-IsBackedOff a rtc k epoch v

  best_effort_to-IsBackedOff :
      (a : Actor) (rtc : Rtc) (to : ℕ) (bytes : List ℕ)
      → IsBackedOff id earlier a
      → IsBackedOff id earlier (best_effort_to a rtc to bytes)
  unfolding best_effort_to delays
  best_effort_to-IsBackedOff a rtc to bytes v =
      lookup_cases (IsBackedOff id earlier) (Map.get a.peers to) a _ (λ _. v)
        (λ peer _. if_both (IsBackedOff id earlier) _ a _ v v)

  best_effort_to_all-IsBackedOff :
      (a : Actor) (rtc : Rtc) (slots : List PlayerInfo) (bytes : List ℕ)
      → IsBackedOff id earlier a
      → IsBackedOff id earlier (best_effort_to_all a rtc slots bytes)
  unfolding best_effort_to_all
  best_effort_to_all-IsBackedOff a rtc [] bytes v = v
  best_effort_to_all-IsBackedOff a rtc (slot ∷ slots) bytes v =
      best_effort_to_all-IsBackedOff
        (if not (slot.id == a.self_id) && slot.occupied
          then best_effort_to a rtc slot.id bytes
          else a)
        rtc slots bytes
        (if_both (IsBackedOff id earlier) _ _ a (best_effort_to-IsBackedOff a rtc slot.id bytes v)
          v)

  watch_link-IsBackedOff :
      (a : Actor) (to : ℕ) → IsBackedOff id earlier a → IsBackedOff id earlier (watch_link a to)
  unfolding watch_link
  watch_link-IsBackedOff a to v =
      lookup_cases (IsBackedOff id earlier) (Map.get a.link_watch to) _ _ (λ _. v) (λ _ _. v)

  open_queue-IsBackedOff :
      (a : Actor) (to : ℕ) → IsBackedOff id earlier a → IsBackedOff id earlier (open_queue a to)
  unfolding open_queue delays
  open_queue-IsBackedOff a to v =
      lookup_cases (IsBackedOff id earlier) (Map.get a.send_queues to) _ _ (λ _. v) (λ _ _. v)

  pub handle_cmd-IsBackedOff :
      (a : Actor) (rtc : Rtc) (c : Cmd)
      → IsBackedOff id earlier a
      → IsBackedOff id earlier (handle_cmd a rtc c)
  unfolding handle_cmd delays
  handle_cmd-IsBackedOff a rtc (send_reliable to bytes job) v =
      if_both (IsBackedOff id earlier) a.closed _ _ v
        (open_queue-IsBackedOff _ to (watch_link-IsBackedOff a to v))
  handle_cmd-IsBackedOff a rtc (send_best_effort to bytes) v =
      best_effort_to-IsBackedOff a rtc to bytes v
  handle_cmd-IsBackedOff a rtc (broadcast_best_effort bytes) v =
      best_effort_to_all-IsBackedOff a rtc a.roster bytes v
