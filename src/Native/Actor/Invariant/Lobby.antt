-- ===== src/Native/Actor/Invariant/Lobby.antt =====
-- The lobby messages keep the invariant.
use lobbylink.Base.{ℕ, ◌≡◌, refl, true, ltb, arith, if_both, if_cases, ◌==◌, Text, codes, text_eq}
use lobbylink.Base.Map
use lobbylink.Base.Map.{HashMap}
use lobbylink.Events.{PlayerLeftReason, explicit_leave, disconnected, from_wire}
use lobbylink.Protocol.{
  ServerMessage, joined, player_joined, player_left, player_rejoined, player_replaced, room_started,
  signal_from, error, unknown_message, is_fatal_code, is_game_over_code,
}
use lobbylink.Roster.{PlayerInfo, modify, roster_from_snapshot}
use lobbylink.Roster.Laws.{IsRoster, roster_from_snapshot-IsRoster, modify-IsRoster}
use lobbylink.Native.Actor.{Rtc, Actor}
use lobbylink.Native.Actor.Peers.{close_peer}
use lobbylink.Native.Actor.Lobby.{
  reset_peer, leave_slot, return_slot, with_roster, close_if_left, game_over, handle_error,
  handle_server_message,
}
use lobbylink.Native.Actor.Invariant.{IsSound, put-IsSound, emit-IsSound, with_roster-IsSound}
use lobbylink.Native.Actor.Invariant.Links.{close_peer-IsSound, teardown_peers-IsSound}
use lobbylink.Native.Actor.Invariant.Signals.{handle_signal-IsSound}
use lobbylink.Native.Actor.Invariant.Offering.{initiate_peer-IsSound}

leave_slot-id : (reason : PlayerLeftReason) (s : PlayerInfo) → (leave_slot reason s).id ≡ s.id
leave_slot-id explicit_leave s = refl
leave_slot-id disconnected s = refl

module _ {self_id max_players : ℕ} where
  -- The failure counts and the flags are not part of it.
  pub with_counts-IsSound :
      (a : Actor) (counts : HashMap ℕ)
      → IsSound self_id max_players a
      → IsSound self_id max_players (record a { rebuild_counts = counts })
  with_counts-IsSound a counts v = record {
    self = v.self;
    slots = v.slots;
    roster = v.roster;
    shared = v.shared;
    linked = v.linked;
    outputs = v.outputs;
    flushed = v.flushed;
  }

  pub with_fatal-IsSound :
      (a : Actor)
      → IsSound self_id max_players a
      → IsSound self_id max_players (record a { fatal_seen = true })
  with_fatal-IsSound a v = record {
    self = v.self;
    slots = v.slots;
    roster = v.roster;
    shared = v.shared;
    linked = v.linked;
    outputs = v.outputs;
    flushed = v.flushed;
  }

  reset_peer-IsSound :
      (a : Actor) (rtc : Rtc) (k : ℕ)
      → IsSound self_id max_players a
      → IsSound self_id max_players (reset_peer a rtc k)
  unfolding reset_peer
  reset_peer-IsSound a rtc k v =
      let reset =
        with_counts-IsSound _ (Map.remove (close_peer a k).rebuild_counts k)
          (close_peer-IsSound a k v) in
      if_both (IsSound self_id max_players) (k == a.self_id) a _ v (
        if_cases (IsSound self_id max_players) (ltb a.self_id k) _ _
          (λ up. initiate_peer-IsSound _ rtc k (ground (arith, up, v.self)) reset) (λ _. reset))

  modified-IsSound :
      (a : Actor) (k : ℕ) (f : PlayerInfo → PlayerInfo)
      → ((s : PlayerInfo) → (f s).id ≡ s.id)
      → IsSound self_id max_players a
      → IsSound self_id max_players (with_roster a (modify a.roster k f))
  modified-IsSound a k f keeps v =
      with_roster-IsSound a _ (modify-IsRoster max_players a.roster k f keeps v.roster) v

  close_if_left-IsSound :
      (a : Actor) (k : ℕ) (reason : PlayerLeftReason)
      → IsSound self_id max_players a
      → IsSound self_id max_players (close_if_left a k reason)
  unfolding close_if_left
  close_if_left-IsSound a k explicit_leave v = close_peer-IsSound a k v
  close_if_left-IsSound a k disconnected v = v

  game_over-IsSound :
      (a : Actor) (code : Text)
      → IsSound self_id max_players a
      → IsSound self_id max_players (game_over a code)
  unfolding game_over
  game_over-IsSound a code v =
      let torn = teardown_peers-IsSound a v in
      if_both (IsSound self_id max_players) (text_eq code (codes "session-superseded")) _ _ torn
        (put-IsSound _ _ tt torn)

  handle_error-IsSound :
      (a : Actor) (code message : Text)
      → IsSound self_id max_players a
      → IsSound self_id max_players (handle_error a code message)
  unfolding handle_error
  handle_error-IsSound a code message v =
      let fatal = with_fatal-IsSound a v in
      if_both (IsSound self_id max_players) (is_fatal_code code) _ _
        (emit-IsSound _ _ (
          if_both (IsSound self_id max_players) (is_game_over_code code) _ _
            (game_over-IsSound _ code fatal) fatal))
        (emit-IsSound a _ v)

  pub handle_server_message-IsSound :
      (a : Actor) (rtc : Rtc) (msg : ServerMessage)
      → IsSound self_id max_players a
      → IsSound self_id max_players (handle_server_message a rtc msg)
  unfolding handle_server_message
  handle_server_message-IsSound a rtc (player_joined k players) v =
      reset_peer-IsSound _ rtc k
        (emit-IsSound _ _ (with_roster-IsSound a _ (snapshot a.max_players v.slots) v))
    where
      snapshot : (n : ℕ) → n ≡ max_players → IsRoster max_players (roster_from_snapshot n players)
      snapshot n same = rw same (roster_from_snapshot-IsRoster max_players players)
  handle_server_message-IsSound a rtc (player_left k reason) v = emit-IsSound _ _ (
      close_if_left-IsSound _ k (from_wire reason)
        (modified-IsSound a k _ (leave_slot-id (from_wire reason)) v))
  handle_server_message-IsSound a rtc (player_rejoined k was_replacement) v =
      reset_peer-IsSound _ rtc k (emit-IsSound _ _ (modified-IsSound a k return_slot (λ s. refl) v))
  handle_server_message-IsSound a rtc (player_replaced k) v =
      reset_peer-IsSound _ rtc k (emit-IsSound _ _ (modified-IsSound a k return_slot (λ s. refl) v))
  handle_server_message-IsSound a rtc room_started v = emit-IsSound _ _ (record {
    self = v.self;
    slots = v.slots;
    roster = v.roster;
    shared = v.shared;
    linked = v.linked;
    outputs = v.outputs;
    flushed = v.flushed;
  })
  handle_server_message-IsSound a rtc (signal_from from payload) v =
      handle_signal-IsSound a rtc from payload v
  handle_server_message-IsSound a rtc (error code message) v = handle_error-IsSound a code message v
  handle_server_message-IsSound a rtc (joined msg) v = v
  handle_server_message-IsSound a rtc unknown_message v = v
