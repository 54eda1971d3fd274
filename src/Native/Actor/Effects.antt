-- ===== src/Native/Actor/Effects.antt =====
-- What a lobby message does to the roster, and what is reported of it.
use lobbylink.Base.{
  ℕ, ◌<◌, ◌≡◌, refl, ap, ◌∙◌, Bool, true, false, List, [], ◌∷◌, ◌++◌, some, ◌==◌, if◌then◌else◌,
  arith, if_both, get_elem?, Text, codes, text_eq,
}
use lobbylink.Events.{Event, PlayerLeftReason, explicit_leave, disconnected, from_wire}
use lobbylink.Events as EventsOf
use lobbylink.Protocol.{
  ServerMessage, joined, player_joined, player_left, player_rejoined, player_replaced, room_started,
  signal_from, error, unknown_message, is_fatal_code, is_game_over_code,
}
use lobbylink.Room.{slot_after, event_of}
use lobbylink.Roster.{PlayerInfo, modify}
use lobbylink.Roster.Laws.{get_elem?-modify, roster_from_snapshot_exact}
use lobbylink.Native.Actor.{Rtc, Actor}
use lobbylink.Native.Actor.Peers.{emit, sync_roster}
use lobbylink.Native.Actor.Lobby.{
  reset_peer, leave_slot, return_slot, close_if_left, game_over, handle_error,
  handle_server_message,
}
use lobbylink.Native.Actor.Unseen.{
  events, delays, IsUnseen, close_peer-IsUnseen, teardown_peers-IsUnseen, reset_peer-IsReset,
}
use lobbylink.Native.Actor.Unseen.Signals.{handle_signal-IsUnseen}

events-emit :
    (a : Actor) (e : Event)
    → events (emit a e).log ≡ (if a.closed then [] else e ∷ []) ++ events a.log
unfolding emit events
events-emit a e = ground arith

roster-emit : (a : Actor) (e : Event) → (emit a e).roster ≡ a.roster
unfolding emit
roster-emit a e = ground arith

-- A report, and then a new link to the player.
reset_reported :
    (a : Actor) (e : Event) (rtc : Rtc) (k : ℕ)
    → ((reset_peer (emit a e) rtc k).roster ≡ a.roster)
      × (events (reset_peer (emit a e) rtc k).log
          ≡ (if a.closed then [] else e ∷ []) ++ events a.log)
reset_reported a e rtc k =
    let unseen = reset_peer-IsReset (emit a e) rtc k in
    (unseen.roster ∙ roster-emit a e, unseen.reported ∙ events-emit a e)

-- A report after a part that is not seen.
unseen_reported :
    (a b : Actor) (e : Event)
    → IsUnseen a b
    → ((emit b e).roster ≡ a.roster)
      × (events (emit b e).log ≡ (if a.closed then [] else e ∷ []) ++ events a.log)
unseen_reported a b e u = (roster-emit b e ∙ u.roster, events-emit b e ∙ cc (u.closed, u.reported))

pub close_if_left-IsUnseen :
    (a : Actor) (k : ℕ) (reason : PlayerLeftReason) → IsUnseen a (close_if_left a k reason)
unfolding close_if_left
close_if_left-IsUnseen a k explicit_leave = close_peer-IsUnseen a k
close_if_left-IsUnseen a k disconnected = record {
  roster = refl;
  closed = refl;
  reported = refl;
  counts = refl;
  timers = λ _. refl;
}

pub game_over-IsUnseen : (a : Actor) (code : Text) → IsUnseen a (game_over a code)
unfolding game_over events delays
game_over-IsUnseen a code =
    let torn = teardown_peers-IsUnseen a in
    if_both (IsUnseen a) (text_eq code (codes "session-superseded")) _ _ torn (record {
      roster = torn.roster;
      closed = torn.closed;
      reported = torn.reported;
      counts = torn.counts;
      timers = torn.timers;
    })

handle_error_reported :
    (a : Actor) (code message : Text)
    → ((handle_error a code message).roster ≡ a.roster)
      × (events (handle_error a code message).log
          ≡ (if a.closed then [] else event_of (error code message)) ++ events a.log)
unfolding handle_error event_of
handle_error_reported a code message = go (is_fatal_code code)
  where
    closing : Event
    closing = EventsOf.Event.signaling_closed code message

    harmless : Event
    harmless = EventsOf.Event.lobby_error code message

    seen : Actor
    seen = record a { fatal_seen = true }

    over : IsUnseen a (if is_game_over_code code then game_over seen code else seen)
    over =
        let torn = game_over-IsUnseen seen code in
        if_both (IsUnseen a) (is_game_over_code code) _ _
          (record {
            roster = torn.roster;
            closed = torn.closed;
            reported = torn.reported;
            counts = torn.counts;
            timers = torn.timers;
          })
          (record {
            roster = refl;
            closed = refl;
            reported = refl;
            counts = refl;
            timers = λ _. refl;
          })

    go :
        (fatal : Bool)
        → let end =
            if fatal
            then emit (if is_game_over_code code then game_over seen code else seen) closing
            else emit a harmless in
          (end.roster ≡ a.roster)
          × (events end.log
              ≡ (if a.closed then [] else ((if fatal then closing else harmless) ∷ []))
                ++ events a.log)
    go true = unseen_reported a _ closing over
    go false = (roster-emit a harmless, events-emit a harmless)

read_reason :
    (reason : Text)
    → from_wire reason
      ≡ (if text_eq reason (codes "explicit-leave") then explicit_leave else disconnected)
unfolding from_wire
read_reason reason = refl

left_slot :
    (reason : Text) (s : PlayerInfo)
    → leave_slot (from_wire reason) s ≡ record {
      id = s.id;
      occupied = if text_eq reason (codes "explicit-leave") then false else s.occupied;
      connected = false;
    }
unfolding from_wire
left_slot reason s = ground arith

get_elem?-modified :
    (a : Actor) (k i : ℕ) (f : PlayerInfo → PlayerInfo) (s : PlayerInfo) (roster : List PlayerInfo)
    → roster ≡ modify a.roster k f
    → get_elem? a.roster i ≡ some s
    → get_elem? roster i ≡ some (if k == i then f s else s)
get_elem?-modified a k i f s roster same there =
    ap (λ r. get_elem? r i) same ∙ get_elem?-modify a.roster k i f s there

-- What is reported of a lobby message.
pub handle_server_message_reported :
    (a : Actor) (rtc : Rtc) (msg : ServerMessage)
    → events (handle_server_message a rtc msg).log
      ≡ (if a.closed then [] else event_of msg) ++ events a.log
unfolding handle_server_message event_of sync_roster
handle_server_message_reported a rtc (player_joined k players) =
    (reset_reported _ (EventsOf.Event.player_joined k) rtc k).1
handle_server_message_reported a rtc (player_left k reason) =
    (unseen_reported _ _ (EventsOf.Event.player_left k (from_wire reason))
      (close_if_left-IsUnseen _ k (from_wire reason))).1
    ∙ ap (λ r. (if a.closed then [] else (EventsOf.Event.player_left k r ∷ [])) ++ events a.log)
        (read_reason reason)
handle_server_message_reported a rtc (player_rejoined k was_replacement) =
    (reset_reported _ (EventsOf.Event.player_rejoined k was_replacement) rtc k).1
handle_server_message_reported a rtc (player_replaced k) =
    (reset_reported _ (EventsOf.Event.player_replaced k) rtc k).1
handle_server_message_reported a rtc room_started = events-emit _ _
handle_server_message_reported a rtc (signal_from from payload) =
    (handle_signal-IsUnseen a rtc from payload).reported ∙ ground arith
handle_server_message_reported a rtc (error code message) = (handle_error_reported a code message).1
handle_server_message_reported a rtc (joined msg) = ground arith
handle_server_message_reported a rtc unknown_message = ground arith

handle_server_message_slots :
    (a : Actor) (rtc : Rtc) (msg : ServerMessage) (i : ℕ) (s : PlayerInfo)
    → i < a.max_players
    → get_elem? a.roster i ≡ some s
    → get_elem? (handle_server_message a rtc msg).roster i ≡ some (slot_after msg i s)
unfolding handle_server_message slot_after sync_roster
handle_server_message_slots a rtc (player_joined k players) i s h there =
    ap (λ r. get_elem? r i) (reset_reported _ (EventsOf.Event.player_joined k) rtc k).0
    ∙ (roster_from_snapshot_exact a.max_players players).1 i h
handle_server_message_slots a rtc (player_left k reason) i s h there =
    get_elem?-modified a k i (leave_slot (from_wire reason)) s _
      (unseen_reported _ _ (EventsOf.Event.player_left k (from_wire reason))
        (close_if_left-IsUnseen _ k (from_wire reason))).0
      there
    ∙ ap (λ t. some (if k == i then t else s)) (left_slot reason s)
handle_server_message_slots a rtc (player_rejoined k was_replacement) i s h there =
    get_elem?-modified a k i return_slot s _
      (reset_reported _ (EventsOf.Event.player_rejoined k was_replacement) rtc k).0 there
handle_server_message_slots a rtc (player_replaced k) i s h there =
    get_elem?-modified a k i return_slot s _
      (reset_reported _ (EventsOf.Event.player_replaced k) rtc k).0 there
handle_server_message_slots a rtc room_started i s h there =
    ap (λ r. get_elem? r i) (roster-emit _ _) ∙ there
handle_server_message_slots a rtc (signal_from from payload) i s h there =
    ap (λ r. get_elem? r i) (handle_signal-IsUnseen a rtc from payload).roster ∙ there
handle_server_message_slots a rtc (error code message) i s h there =
    ap (λ r. get_elem? r i) (handle_error_reported a code message).0 ∙ there
handle_server_message_slots a rtc (joined msg) i s h there = there
handle_server_message_slots a rtc unknown_message i s h there = there

-- After a lobby message every slot of the roster is what the message's meaning makes of the slot
-- before; the message is reported by exactly one event, or by none if it is a signal, a second
-- "joined", of an unknown type, or if the session is closed.
pub handle_server_message_exact :
    (a : Actor) (rtc : Rtc) (msg : ServerMessage) (i : ℕ) (s : PlayerInfo)
    → i < a.max_players
    → get_elem? a.roster i ≡ some s
    → (get_elem? (handle_server_message a rtc msg).roster i ≡ some (slot_after msg i s))
      × (events (handle_server_message a rtc msg).log
          ≡ (if a.closed then [] else event_of msg) ++ events a.log)
handle_server_message_exact a rtc msg i s h there =
    (handle_server_message_slots a rtc msg i s h there, handle_server_message_reported a rtc msg)
