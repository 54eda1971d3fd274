-- ===== src/Wasm/Lobby.antt =====
-- The WebSocket handlers of wasm/inner.rs, `handle_server_message` and `shutdown`.
use lobbylink.Base.{
  ℕ, true, false, ◌∷◌, Option, none, some, ltb, ◌==◌, if◌then◌else◌, ◌||◌, Text, codes, text_eq,
}
use lobbylink.Base.Map
use lobbylink.Events.{PlayerLeftReason, explicit_leave, disconnected, from_wire}
use lobbylink.Events as EventsOf
use lobbylink.Protocol.{
  ServerMessage, joined, player_joined, player_left, player_rejoined, player_replaced, room_started,
  signal_from, error, unknown_message, is_fatal_code, is_game_over_code, leave,
}
use lobbylink.Roster.{PlayerInfo, modify, roster_from_snapshot}
use lobbylink.Wasm.{Inner, Web, put, spawn, emit, storage_clear, ws_send, ws_close, signal_start}
use lobbylink.Wasm.Links.{close_peer, teardown_peers}
use lobbylink.Wasm.Signals.{initiate_peer}

unfoldable pub reset_peer : Inner → Web → ℕ → Inner
reset_peer a web player_id =
    let shut = close_peer a player_id in
    let reset = record shut { rebuild_counts = Map.remove shut.rebuild_counts player_id } in
    if a.self_id == player_id
    then a
    else if ltb a.self_id player_id
    then initiate_peer reset web player_id
    else reset

-- The slot of a player who leaves.
abbrev pub leave_slot : PlayerLeftReason → PlayerInfo → PlayerInfo
leave_slot explicit_leave slot = record { id = slot.id; occupied = false; connected = false }
leave_slot disconnected slot = record { id = slot.id; occupied = slot.occupied; connected = false }

abbrev pub occupied_slot : PlayerInfo → PlayerInfo
occupied_slot slot = record { id = slot.id; occupied = true; connected = true }

unfoldable pub mark_occupied : Inner → ℕ → Inner
mark_occupied a player_id = record a { roster = modify a.roster player_id occupied_slot }

unfoldable pub close_if_left : Inner → ℕ → PlayerLeftReason → Inner
close_if_left a player_id explicit_leave = close_peer a player_id
close_if_left a player_id disconnected = a

-- The end of the game, for a code of that kind.
unfoldable pub game_over : Inner → Text → Inner
game_over a code =
    let torn = teardown_peers a in
    if text_eq code (codes "session-superseded")
    then torn
    else put torn (storage_clear torn.storage_key torn.storage_kind)

unfoldable pub handle_error : Inner → Text → Text → Inner
handle_error a code message =
    let fatal = record a { fatal_seen = true } in
    if is_fatal_code code
    then emit (if is_game_over_code code then game_over fatal code else fatal)
        (EventsOf.Event.signaling_closed code message)
    else emit a (EventsOf.Event.lobby_error code message)

-- The match of `handle_server_message`.
unfoldable pub handle_open : Inner → Web → ServerMessage → Inner
handle_open a web (player_joined player_id players) =
    reset_peer
      (emit (record a { roster = roster_from_snapshot a.max_players players })
        (EventsOf.Event.player_joined player_id))
      web player_id
handle_open a web (player_left player_id reason) =
    let left = record a { roster = modify a.roster player_id (leave_slot (from_wire reason)) } in
    emit (close_if_left left player_id (from_wire reason))
      (EventsOf.Event.player_left player_id (from_wire reason))
handle_open a web (player_rejoined player_id was_replacement) =
    reset_peer
      (emit (mark_occupied a player_id) (EventsOf.Event.player_rejoined player_id was_replacement))
      web player_id
handle_open a web (player_replaced player_id) =
    reset_peer (emit (mark_occupied a player_id) (EventsOf.Event.player_replaced player_id)) web
      player_id
handle_open a web room_started = emit (record a { started = true }) EventsOf.Event.started
handle_open a web (signal_from from payload) = spawn a (signal_start from payload)
handle_open a web (error code message) = handle_error a code message
handle_open a web (joined msg) = a
handle_open a web unknown_message = a

unfoldable pub handle_server_message : Inner → Web → ServerMessage → Inner
handle_server_message a web msg = if a.closed then a else handle_open a web msg

-- The `onmessage` handler; none is a text that does not parse.
unfoldable pub on_ws_message : Inner → Web → Option ServerMessage → Inner
on_ws_message a web none = a
on_ws_message a web (some msg) = handle_server_message a web msg

unfoldable pub on_ws_close : Inner → Inner
on_ws_close a =
    if a.closed || a.fatal_seen
    then a
    else emit (record a { fatal_seen = true })
        (EventsOf.Event.signaling_closed (codes "connection-lost")
          (codes "signaling connection lost; existing peer channels stay up"))

unfoldable pub shutdown : Inner → Web → Inner
shutdown a web =
    let log = if web.ws_open then ws_send leave ∷ a.log else a.log in
    if a.closed
    then a
    else teardown_peers (record a {
      closed = true;
      handlers = false;
      log = storage_clear a.storage_key a.storage_kind ∷ ws_close ∷ log;
    })
