-- ===== src/Wasm/Effects.antt =====
-- What a message of the lobby does to the roster of clients/rust/src/wasm/inner.rs, and what is
-- reported of it.
use lobbylink.Base.{
  ℕ, ◌<◌, ◌≡◌, refl, ap, ◌∙◌, Bool, true, false, List, ◌∷◌, ◌++◌, some, ◌==◌, if◌then◌else◌, arith,
  if_both, get_elem?, Text, codes, text_eq,
}
use lobbylink.Events.{Event, PlayerLeftReason, explicit_leave, disconnected, from_wire}
use lobbylink.Events as EventsOf
use lobbylink.Protocol.{
  ServerMessage, joined, player_joined, player_left, player_rejoined, player_replaced, room_started,
  signal_from, error, unknown_message, is_fatal_code, is_game_over_code,
}
use lobbylink.Roster.{PlayerInfo, modify, roster_from_snapshot}
use lobbylink.Roster.Laws.{get_elem?-modify, roster_from_snapshot_exact}
use lobbylink.Room.{slot_after, event_of}
use lobbylink.Wasm.{Inner, Web, emit}
use lobbylink.Wasm.Lobby.{
  reset_peer, leave_slot, occupied_slot, mark_occupied, close_if_left, game_over, handle_error,
  handle_open,
}
use lobbylink.Wasm.Unseen.{
  events, View, seen_as, view, close_peer_unseen, teardown_peers_unseen, reset_peer_unseen,
  emit_seen,
}

-- A report after a part that is not seen.
emitted :
    (a b : Inner) (e : Event)
    → a.closed ≡ false
    → view b ≡ view a
    → view (emit b e) ≡ seen_as a.roster false (e ∷ events a.log)
emitted a b e live same =
    let open_b : b.closed ≡ false = ap (λ (v : View). v.closed) same ∙ live in
    emit_seen b e open_b ∙ ap (λ (v : View). seen_as v.roster false (e ∷ v.reported)) same

-- A report, and then a new link to the player.
reset_seen :
    (a : Inner) (web : Web) (k : ℕ) (e : Event)
    → a.closed ≡ false
    → view (reset_peer (emit a e) web k) ≡ seen_as a.roster false (e ∷ events a.log)
reset_seen a web k e live = reset_peer_unseen (emit a e) web k ∙ emitted a a e live refl

-- The roster after a message.
abbrev pub roster_next : Inner → ServerMessage → List PlayerInfo
roster_next a (player_joined k players) = roster_from_snapshot a.max_players players
roster_next a (player_left k reason) = modify a.roster k (leave_slot (from_wire reason))
roster_next a (player_rejoined k was_replacement) = modify a.roster k occupied_slot
roster_next a (player_replaced k) = modify a.roster k occupied_slot
roster_next a _ = a.roster

close_if_left_unseen :
    (a : Inner) (k : ℕ) (reason : PlayerLeftReason) → view (close_if_left a k reason) ≡ view a
unfolding close_if_left
close_if_left_unseen a k explicit_leave = close_peer_unseen a k
close_if_left_unseen a k disconnected = refl

game_over_unseen : (a : Inner) (code : Text) → view (game_over a code) ≡ view a
unfolding game_over events
game_over_unseen a code =
    let torn = teardown_peers_unseen a in
    if_both (λ (b : Inner). view b ≡ view a) (text_eq code (codes "session-superseded")) _ _ torn
      torn

handle_error_seen :
    (a : Inner) (code message : Text)
    → a.closed ≡ false
    → view (handle_error a code message)
      ≡ seen_as a.roster false (event_of (error code message) ++ events a.log)
unfolding handle_error event_of
handle_error_seen a code message live = of_kind (is_fatal_code code)
  where
    fatal : Inner
    fatal = record a { fatal_seen = true }

    over : view (if is_game_over_code code then game_over fatal code else fatal) ≡ view a
    over =
        if_both (λ (b : Inner). view b ≡ view a) (is_game_over_code code) _ _
          (game_over_unseen fatal code) refl

    of_kind :
        (b : Bool)
        → view (
            if b
            then emit
                (if is_game_over_code code then game_over fatal code else fatal)
                (EventsOf.Event.signaling_closed code message)
            else emit a (EventsOf.Event.lobby_error code message))
          ≡ seen_as a.roster false (
              (if b
                then EventsOf.Event.signaling_closed code message
                else EventsOf.Event.lobby_error code message)
              ∷ events a.log)
    of_kind true =
        emitted a (if is_game_over_code code then game_over fatal code else fatal)
          (EventsOf.Event.signaling_closed code message) live over
    of_kind false = emitted a a (EventsOf.Event.lobby_error code message) live refl

read_reason :
    (reason : Text)
    → from_wire reason
      ≡ (if text_eq reason (codes "explicit-leave") then explicit_leave else disconnected)
unfolding from_wire
read_reason reason = refl

pub handle_open_seen :
    (a : Inner) (web : Web) (msg : ServerMessage)
    → a.closed ≡ false
    → view (handle_open a web msg)
      ≡ seen_as (roster_next a msg) false (event_of msg ++ events a.log)
unfolding handle_open event_of mark_occupied
handle_open_seen a web (player_joined k players) live =
    let a' : Inner = record a { roster = roster_from_snapshot a.max_players players } in
    reset_seen a' web k (EventsOf.Event.player_joined k) live
handle_open_seen a web (player_left k reason) live =
    let a' : Inner = record a { roster = modify a.roster k (leave_slot (from_wire reason)) } in
    emitted a' (close_if_left a' k (from_wire reason))
      (EventsOf.Event.player_left k (from_wire reason)) live
      (close_if_left_unseen a' k (from_wire reason))
    ∙ ap (λ r. seen_as a'.roster false (EventsOf.Event.player_left k r ∷ events a.log))
        (read_reason reason)
handle_open_seen a web (player_rejoined k was_replacement) live =
    let a' : Inner = record a { roster = modify a.roster k occupied_slot } in
    reset_seen a' web k (EventsOf.Event.player_rejoined k was_replacement) live
handle_open_seen a web (player_replaced k) live =
    let a' : Inner = record a { roster = modify a.roster k occupied_slot } in
    reset_seen a' web k (EventsOf.Event.player_replaced k) live
handle_open_seen a web room_started live =
    emitted a (record a { started = true }) EventsOf.Event.started live refl
handle_open_seen a web (signal_from from payload) live =
    ap (λ c. seen_as a.roster c (events a.log)) live
handle_open_seen a web (error code message) live = handle_error_seen a code message live
handle_open_seen a web (joined msg) live = ap (λ c. seen_as a.roster c (events a.log)) live
handle_open_seen a web unknown_message live = ap (λ c. seen_as a.roster c (events a.log)) live

left_slot :
    (reason : Text) (s : PlayerInfo)
    → leave_slot (from_wire reason) s ≡ record {
      id = s.id;
      occupied = if text_eq reason (codes "explicit-leave") then false else s.occupied;
      connected = false;
    }
unfolding from_wire
left_slot reason s = ground arith

pub roster_next_slots :
    (a : Inner) (msg : ServerMessage) (i : ℕ) (s : PlayerInfo)
    → i < a.max_players
    → get_elem? a.roster i ≡ some s
    → get_elem? (roster_next a msg) i ≡ some (slot_after msg i s)
unfolding slot_after
roster_next_slots a (player_joined k players) i s h there =
    (roster_from_snapshot_exact a.max_players players).1 i h
roster_next_slots a (player_left k reason) i s h there =
    get_elem?-modify a.roster k i (leave_slot (from_wire reason)) s there
    ∙ ap (λ t. some (if k == i then t else s)) (left_slot reason s)
roster_next_slots a (player_rejoined k was_replacement) i s h there =
    get_elem?-modify a.roster k i occupied_slot s there
roster_next_slots a (player_replaced k) i s h there =
    get_elem?-modify a.roster k i occupied_slot s there
roster_next_slots a (joined msg) i s h there = there
roster_next_slots a room_started i s h there = there
roster_next_slots a (signal_from from payload) i s h there = there
roster_next_slots a (error code message) i s h there = there
roster_next_slots a unknown_message i s h there = there
