-- ===== src/Wasm/Invariant/Lobby.antt =====
-- The lobby messages, the end of the connection and `shutdown` of wasm/inner.rs keep the invariant.
use lobbylink.Base.{
  ℕ, ◌≡◌, refl, true, List, Option, none, some, ltb, ◌==◌, ◌||◌, arith, if_both, if_cases, Text,
  codes, text_eq,
}
use lobbylink.Events.{Event, PlayerLeftReason, explicit_leave, disconnected, from_wire}
use lobbylink.Protocol.{
  ServerMessage, joined, player_joined, player_left, player_rejoined, player_replaced, room_started,
  signal_from, error, unknown_message, is_fatal_code, is_game_over_code,
}
use lobbylink.Roster.{PlayerInfo, modify, roster_from_snapshot}
use lobbylink.Roster.Laws.{IsRoster, roster_from_snapshot-IsRoster, modify-IsRoster}
use lobbylink.Wasm.{Inner, Web, emit}
use lobbylink.Wasm.Lobby.{
  reset_peer, leave_slot, occupied_slot, mark_occupied, close_if_left, game_over, handle_error,
  handle_open, handle_server_message, on_ws_message, on_ws_close, shutdown,
}
use lobbylink.Wasm.Invariant.{IsSound}
use lobbylink.Wasm.Invariant.Links.{close_peer-IsSound, teardown_peers-IsSound, teardown-IsSound}
use lobbylink.Wasm.Invariant.Signals.{initiate_peer-IsSound}

left_slot_id : (reason : PlayerLeftReason) (s : PlayerInfo) → (leave_slot reason s).id ≡ s.id
left_slot_id explicit_leave s = refl
left_slot_id disconnected s = refl

module _ {self_id max_players : ℕ} where
  pub emit-IsSound :
      (a : Inner) (e : Event)
      → IsSound self_id max_players a
      → IsSound self_id max_players (emit a e)
  unfolding emit
  emit-IsSound a e v = if_both (IsSound self_id max_players) a.closed _ _ v v

  pub with_roster-IsSound :
      (a : Inner) (roster : List PlayerInfo)
      → IsRoster max_players roster
      → IsSound self_id max_players a
      → IsSound self_id max_players (record a { roster = roster })
  with_roster-IsSound a roster r v = record {
    self = v.self;
    slots_kept = v.slots_kept;
    roster_kept = r;
    linked = v.linked;
    shut = v.shut;
  }

  pub modified-IsSound :
      (a : Inner) (k : ℕ) (f : PlayerInfo → PlayerInfo)
      → ((s : PlayerInfo) → (f s).id ≡ s.id)
      → IsSound self_id max_players a
      → IsSound self_id max_players (record a { roster = modify a.roster k f })
  modified-IsSound a k f same v =
      with_roster-IsSound a _ (modify-IsRoster max_players a.roster k f same v.roster_kept) v

  pub reset_peer-IsSound :
      (a : Inner) (web : Web) (k : ℕ)
      → IsSound self_id max_players a
      → IsSound self_id max_players (reset_peer a web k)
  unfolding reset_peer
  reset_peer-IsSound a web k v =
      let reset = close_peer-IsSound a k v in
      if_both (IsSound self_id max_players) (a.self_id == k) a _ v (
        if_cases (IsSound self_id max_players) (ltb a.self_id k) _ _
          (λ up. initiate_peer-IsSound _ web k (ground (arith, up, v.self)) reset) (λ _. reset))

  close_if_left-IsSound :
      (a : Inner) (k : ℕ) (reason : PlayerLeftReason)
      → IsSound self_id max_players a
      → IsSound self_id max_players (close_if_left a k reason)
  unfolding close_if_left
  close_if_left-IsSound a k explicit_leave v = close_peer-IsSound a k v
  close_if_left-IsSound a k disconnected v = v

  game_over-IsSound :
      (a : Inner) (code : Text)
      → IsSound self_id max_players a
      → IsSound self_id max_players (game_over a code)
  unfolding game_over
  game_over-IsSound a code v =
      let torn = teardown_peers-IsSound a v in
      if_both (IsSound self_id max_players) (text_eq code (codes "session-superseded")) _ _ torn
        torn

  handle_error-IsSound :
      (a : Inner) (code message : Text)
      → IsSound self_id max_players a
      → IsSound self_id max_players (handle_error a code message)
  unfolding handle_error
  handle_error-IsSound a code message v =
      if_both (IsSound self_id max_players) (is_fatal_code code) _ _
        (emit-IsSound _ _ (
          if_both (IsSound self_id max_players) (is_game_over_code code) _ _
            (game_over-IsSound (record a { fatal_seen = true }) code v) v))
        (emit-IsSound a _ v)

  handle_open-IsSound :
      (a : Inner) (web : Web) (msg : ServerMessage)
      → IsSound self_id max_players a
      → IsSound self_id max_players (handle_open a web msg)
  unfolding handle_open mark_occupied
  handle_open-IsSound a web (player_joined k players) v = reset_peer-IsSound _ web k (
      emit-IsSound _ _ (
        with_roster-IsSound a (roster_from_snapshot a.max_players players)
          (rw (v.slots_kept) (roster_from_snapshot-IsRoster max_players players)) v))
  handle_open-IsSound a web (player_left k reason) v = emit-IsSound _ _ (
      close_if_left-IsSound _ k (from_wire reason)
        (modified-IsSound a k _ (left_slot_id (from_wire reason)) v))
  handle_open-IsSound a web (player_rejoined k was_replacement) v =
      reset_peer-IsSound _ web k
        (emit-IsSound _ _ (modified-IsSound a k occupied_slot (λ s. refl) v))
  handle_open-IsSound a web (player_replaced k) v =
      reset_peer-IsSound _ web k
        (emit-IsSound _ _ (modified-IsSound a k occupied_slot (λ s. refl) v))
  handle_open-IsSound a web room_started v = emit-IsSound (record a { started = true }) _ v
  handle_open-IsSound a web (signal_from from payload) v = v
  handle_open-IsSound a web (error code message) v = handle_error-IsSound a code message v
  handle_open-IsSound a web (joined msg) v = v
  handle_open-IsSound a web unknown_message v = v

  pub on_ws_message-IsSound :
      (a : Inner) (web : Web) (msg : Option ServerMessage)
      → IsSound self_id max_players a
      → IsSound self_id max_players (on_ws_message a web msg)
  unfolding on_ws_message handle_server_message
  on_ws_message-IsSound a web none v = v
  on_ws_message-IsSound a web (some msg) v =
      if_both (IsSound self_id max_players) a.closed _ _ v (handle_open-IsSound a web msg v)

  pub on_ws_close-IsSound :
      (a : Inner) → IsSound self_id max_players a → IsSound self_id max_players (on_ws_close a)
  unfolding on_ws_close
  on_ws_close-IsSound a v =
      if_both (IsSound self_id max_players) (a.closed || a.fatal_seen) _ _ v
        (emit-IsSound (record a { fatal_seen = true }) _ v)

  pub shutdown-IsSound :
      (a : Inner) (web : Web)
      → IsSound self_id max_players a
      → IsSound self_id max_players (shutdown a web)
  unfolding shutdown
  shutdown-IsSound a web v =
      if_both (IsSound self_id max_players) a.closed _ _ v
        (teardown-IsSound _ v.self v.slots_kept v.roster_kept v.linked)
