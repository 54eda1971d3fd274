-- ===== src/Native/Actor/Lobby.antt =====
-- The lobby messages of actor.rs.
use lobbylink.Base.{ℕ, true, false, List, ltb, ◌==◌, if◌then◌else◌, Text, codes, text_eq}
use lobbylink.Base.Map
use lobbylink.Events.{PlayerLeftReason, explicit_leave, disconnected, from_wire}
use lobbylink.Events as EventsOf
use lobbylink.Protocol.{
  ServerMessage, joined, player_joined, player_left, player_rejoined, player_replaced, room_started,
  signal_from, error, unknown_message, is_fatal_code, is_game_over_code,
}
use lobbylink.Roster.{PlayerInfo, modify, roster_from_snapshot}
use lobbylink.Native.Actor.{Rtc, Actor, put, storage_clear}
use lobbylink.Native.Actor.Peers.{emit, sync_roster, close_peer, teardown_peers}
use lobbylink.Native.Actor.Signals.{initiate_peer, handle_signal}

unfoldable pub reset_peer : Actor → Rtc → ℕ → Actor
reset_peer a rtc player_id =
    let closed = close_peer a player_id in
    let reset = record closed { rebuild_counts = Map.remove closed.rebuild_counts player_id } in
    if player_id == a.self_id
    then a
    else if ltb a.self_id player_id
    then initiate_peer reset rtc player_id
    else reset

-- The slot of a player who leaves.
abbrev pub leave_slot : PlayerLeftReason → PlayerInfo → PlayerInfo
leave_slot explicit_leave slot = record { id = slot.id; occupied = false; connected = false }
leave_slot disconnected slot = record { id = slot.id; occupied = slot.occupied; connected = false }

abbrev pub return_slot : PlayerInfo → PlayerInfo
return_slot slot = record { id = slot.id; occupied = true; connected = true }

abbrev pub with_roster : Actor → List PlayerInfo → Actor
with_roster a roster = sync_roster (record a { roster = roster })

unfoldable pub close_if_left : Actor → ℕ → PlayerLeftReason → Actor
close_if_left a player_id explicit_leave = close_peer a player_id
close_if_left a player_id disconnected = a

-- The end of the game, for a code of that kind.
unfoldable pub game_over : Actor → Text → Actor
game_over a code =
    let a' = teardown_peers a in
    if text_eq code (codes "session-superseded") then a' else put a' (storage_clear a'.storage_path)

unfoldable pub handle_error : Actor → Text → Text → Actor
handle_error a code message =
    let fatal = record a { fatal_seen = true } in
    if is_fatal_code code
    then emit (if is_game_over_code code then game_over fatal code else fatal)
        (EventsOf.Event.signaling_closed code message)
    else emit a (EventsOf.Event.lobby_error code message)

unfoldable pub handle_server_message : Actor → Rtc → ServerMessage → Actor
handle_server_message a rtc (player_joined player_id players) =
    reset_peer
      (emit (with_roster a (roster_from_snapshot a.max_players players))
        (EventsOf.Event.player_joined player_id))
      rtc player_id
handle_server_message a rtc (player_left player_id reason) =
    let left = with_roster a (modify a.roster player_id (leave_slot (from_wire reason))) in
    emit (close_if_left left player_id (from_wire reason))
      (EventsOf.Event.player_left player_id (from_wire reason))
handle_server_message a rtc (player_rejoined player_id was_replacement) =
    reset_peer
      (emit (with_roster a (modify a.roster player_id return_slot))
        (EventsOf.Event.player_rejoined player_id was_replacement))
      rtc player_id
handle_server_message a rtc (player_replaced player_id) =
    reset_peer
      (emit (with_roster a (modify a.roster player_id return_slot))
        (EventsOf.Event.player_replaced player_id))
      rtc player_id
handle_server_message a rtc room_started =
    emit
      (record a {
        shared = record { started = true; closed = a.shared.closed; roster = a.shared.roster };
      })
      EventsOf.Event.started
handle_server_message a rtc (signal_from from payload) = handle_signal a rtc from payload
handle_server_message a rtc (error code message) = handle_error a code message
handle_server_message a rtc (joined msg) = a
handle_server_message a rtc unknown_message = a
