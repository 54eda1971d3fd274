-- ===== src/Wasm/Directed/Lobby.antt =====
-- The lobby messages, the end of the connection and `shutdown`.
use lobbylink.Base.{
  ℕ, refl, true, List, ◌∷◌, Option, none, some, ltb, ◌==◌, ◌||◌, if_both, Text, codes, text_eq,
  if◌then◌else◌,
}
use lobbylink.Base.Map
use lobbylink.Events.{PlayerLeftReason, explicit_leave, disconnected}
use lobbylink.Protocol.{is_fatal_code, is_game_over_code, leave}
use lobbylink.Wasm.{Output, Inner, Web, put, ws_send, ws_close, storage_clear}
use lobbylink.Wasm.Links.{close_peer, teardown_peers}
use lobbylink.Wasm.Lobby.{reset_peer, close_if_left, game_over, handle_error, on_ws_close, shutdown}
use lobbylink.Wasm.Invariant.{IsSound}
use lobbylink.Wasm.Invariant.Links.{close_peer-IsSound}
use lobbylink.Wasm.Directed.{IsOrdered, put-IsOrdered, spawn-IsOrdered, emit-IsOrdered}
use lobbylink.Wasm.Directed.Links.{close_peer-IsOrdered, teardown_peers-IsOrdered}
use lobbylink.Wasm.Directed.Offering.{initiate_peer-IsOrdered}
use lobbylink.Events.{from_wire}
use lobbylink.Roster.{roster_from_snapshot}
use lobbylink.Roster.Laws.{roster_from_snapshot-IsRoster}
use lobbylink.Protocol.{
  ServerMessage, joined, player_joined, player_left, player_rejoined, player_replaced, room_started,
  signal_from, error, unknown_message,
}
use lobbylink.Wasm.{signal_start}
use lobbylink.Wasm.Lobby.{
  occupied_slot, mark_occupied, handle_open, handle_server_message, on_ws_message,
}
use lobbylink.Wasm.Invariant.Lobby.{emit-IsSound, with_roster-IsSound, modified-IsSound}

close_if_left-IsOrdered :
    (a : Inner) (k : ℕ) (reason : PlayerLeftReason)
    → IsOrdered a
    → IsOrdered (close_if_left a k reason)
unfolding close_if_left
close_if_left-IsOrdered a k explicit_leave d = close_peer-IsOrdered a k d
close_if_left-IsOrdered a k disconnected d = d

handle_error-IsOrdered :
    (a : Inner) (code message : Text) → IsOrdered a → IsOrdered (handle_error a code message)
unfolding handle_error game_over
handle_error-IsOrdered a code message d =
    let torn = teardown_peers-IsOrdered (record a { fatal_seen = true }) d in
    if_both IsOrdered (is_fatal_code code) _ _
      (emit-IsOrdered _ _ (
        if_both IsOrdered (is_game_over_code code) _ _
          (if_both IsOrdered (text_eq code (codes "session-superseded")) _ _ torn (
            put-IsOrdered (teardown_peers (record a { fatal_seen = true })) (storage_clear _ _) tt
              torn))
          d))
      (emit-IsOrdered a _ d)

pub on_ws_close-IsOrdered : (a : Inner) → IsOrdered a → IsOrdered (on_ws_close a)
unfolding on_ws_close
on_ws_close-IsOrdered a d =
    if_both IsOrdered (a.closed || a.fatal_seen) _ _ d
      (emit-IsOrdered (record a { fatal_seen = true }) _ d)

pub shutdown-IsOrdered : (a : Inner) (web : Web) → IsOrdered a → IsOrdered (shutdown a web)
unfolding shutdown
shutdown-IsOrdered a web d =
    let left : Inner = record a { log = if web.ws_open then ws_send leave ∷ a.log else a.log } in
    let left_d =
      if_both (λ (log : List Output). IsOrdered (record a { log = log })) web.ws_open _ _
        (put-IsOrdered a (ws_send leave) tt d) d in
    let shut = put-IsOrdered left ws_close tt left_d in
    if_both IsOrdered a.closed _ _ d (
      teardown_peers-IsOrdered _
        (put-IsOrdered (put left ws_close) (storage_clear a.storage_key a.storage_kind) tt shut))

module _ {self_id max_players : ℕ} where
  reset_peer-IsOrdered :
      (a : Inner) (web : Web) (k : ℕ)
      → IsSound self_id max_players a
      → IsOrdered a
      → IsOrdered (reset_peer a web k)
  unfolding reset_peer
  reset_peer-IsOrdered a web k v d =
      let reset = close_peer-IsOrdered a k d in
      if_both IsOrdered (a.self_id == k) _ _ d (
        if_both IsOrdered (ltb a.self_id k) _ _
          (initiate_peer-IsOrdered
            (record (close_peer a k) {
              rebuild_counts = Map.remove (close_peer a k).rebuild_counts k;
            })
            web k (close_peer-IsSound a k v) reset)
          reset)

  handle_open-IsOrdered :
      (a : Inner) (web : Web) (msg : ServerMessage)
      → IsSound self_id max_players a
      → IsOrdered a
      → IsOrdered (handle_open a web msg)
  unfolding handle_open mark_occupied
  handle_open-IsOrdered a web (player_joined k players) v d =
      reset_peer-IsOrdered _ web k
        (emit-IsSound _ _ (
          with_roster-IsSound a (roster_from_snapshot a.max_players players)
            (rw (v.slots_kept) (roster_from_snapshot-IsRoster max_players players)) v))
        (emit-IsOrdered _ _ d)
  handle_open-IsOrdered a web (player_left k reason) v d =
      emit-IsOrdered _ _ (close_if_left-IsOrdered _ k (from_wire reason) d)
  handle_open-IsOrdered a web (player_rejoined k was_replacement) v d =
      reset_peer-IsOrdered _ web k
        (emit-IsSound _ _ (modified-IsSound a k occupied_slot (λ s. refl) v)) (emit-IsOrdered _ _ d)
  handle_open-IsOrdered a web (player_replaced k) v d =
      reset_peer-IsOrdered _ web k
        (emit-IsSound _ _ (modified-IsSound a k occupied_slot (λ s. refl) v)) (emit-IsOrdered _ _ d)
  handle_open-IsOrdered a web room_started v d = emit-IsOrdered _ _ d
  handle_open-IsOrdered a web (signal_from from payload) v d =
      spawn-IsOrdered a (signal_start from payload) tt d
  handle_open-IsOrdered a web (error code message) v d = handle_error-IsOrdered a code message d
  handle_open-IsOrdered a web (joined msg) v d = d
  handle_open-IsOrdered a web unknown_message v d = d

  pub on_ws_message-IsOrdered :
      (a : Inner) (web : Web) (msg : Option ServerMessage)
      → IsSound self_id max_players a
      → IsOrdered a
      → IsOrdered (on_ws_message a web msg)
  unfolding on_ws_message handle_server_message
  on_ws_message-IsOrdered a web none v d = d
  on_ws_message-IsOrdered a web (some msg) v d =
      if_both IsOrdered a.closed _ _ d (handle_open-IsOrdered a web msg v d)
