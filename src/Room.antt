-- ===== src/Room.antt =====
-- What a client promises of the room, whichever backend it has: the slots and the events that the
-- messages of the lobby mean. The children show that both backends of clients/rust/src keep to it.
pub mod Actor
pub mod Browser
pub mod Same
mod Examples
use lobbylink.Base.{
  ℕ, zero, suc, ◌+◌, ◌≡◌, refl, Bool, true, false, List, [], ◌∷◌, ◌++◌, Option, some, ◌==◌,
  if◌then◌else◌, arith, ap, ◌∙◌, get_elem?, length, Text, codes, text_eq,
}
use lobbylink.Events.{Event, PlayerLeftReason, explicit_leave, disconnected}
use lobbylink.Events as EventsOf
use lobbylink.Protocol.{
  ServerMessage, player_joined, player_left, player_rejoined, player_replaced, room_started, error,
  is_fatal_code,
}
use lobbylink.Roster.{PlayerInfo}
use lobbylink.Roster.Laws.{last_said}

-- The slot with the number `i` after a lobby message; `s` is the slot before.
unfoldable pub slot_after : ServerMessage → ℕ → PlayerInfo → PlayerInfo
slot_after (player_joined k players) i s =
    last_said i (record { id = i; occupied = false; connected = false }) players
slot_after (player_left k reason) i s =
    if k == i
    then record {
      id = s.id;
      occupied = if text_eq reason (codes "explicit-leave") then false else s.occupied;
      connected = false;
    }
    else s
slot_after (player_rejoined k was_replacement) i s =
    if k == i then record { id = s.id; occupied = true; connected = true } else s
slot_after (player_replaced k) i s =
    if k == i then record { id = s.id; occupied = true; connected = true } else s
slot_after _ i s = s

-- What is reported of a lobby message.
unfoldable pub event_of : ServerMessage → List Event
event_of (player_joined k players) = EventsOf.Event.player_joined k ∷ []
event_of (player_left k reason) =
    EventsOf.Event.player_left k
      (if text_eq reason (codes "explicit-leave") then explicit_leave else disconnected)
    ∷ []
event_of (player_rejoined k was_replacement) = EventsOf.Event.player_rejoined k was_replacement ∷ []
event_of (player_replaced k) = EventsOf.Event.player_replaced k ∷ []
event_of room_started = EventsOf.Event.started ∷ []
event_of (error code message) =
    (if is_fatal_code code
      then EventsOf.Event.signaling_closed code message
      else EventsOf.Event.lobby_error code message)
    ∷ []
event_of _ = []

-- The room as the application sees it: its slots, and what was reported, newest first.
pub record Room : Type 0 where
  pub slots : List PlayerInfo
  pub reported : List Event

-- Each slot after a message; the first one here has the number `i`.
unfoldable pub tell : ServerMessage → ℕ → List PlayerInfo → List PlayerInfo
tell msg i [] = []
tell msg i (s ∷ slots) = slot_after msg i s ∷ tell msg (suc i) slots

unfoldable pub room_step : Room → ServerMessage → Room
room_step room msg = record {
  slots = tell msg 0 room.slots;
  reported = event_of msg ++ room.reported;
}

unfoldable pub room_after : Room → List ServerMessage → Room
room_after room [] = room
room_after room (msg ∷ msgs) = room_after (room_step room msg) msgs

-- The messages of a list that has with each what is answered meanwhile.
unfoldable pub messages : {A : Type 0} → List (A × ServerMessage) → List ServerMessage
messages [] = []
messages ((answers, msg) ∷ rest) = msg ∷ messages rest

tell_from :
    (msg : ServerMessage) (k : ℕ) (slots slots' : List PlayerInfo)
    → length slots' ≡ length slots
    → ((i j : ℕ) (s : PlayerInfo)
        → j ≡ k + i
        → get_elem? slots i ≡ some s
        → get_elem? slots' i ≡ some (slot_after msg j s))
    → slots' ≡ tell msg k slots
unfolding tell
tell_from msg k [] [] size each = refl
tell_from msg k [] (s' ∷ slots') size each = absurd (omega (arith, size))
tell_from msg k (s ∷ slots) [] size each = absurd (omega (arith, size))
tell_from msg k (s ∷ slots) (s' ∷ slots') size each =
    let here : s' ≡ slot_after msg k s = cc (each 0 k s (omega arith) refl) in
    let rest : slots' ≡ tell msg (suc k) slots =
      tell_from msg (suc k) slots slots' (omega (arith, size))
        (λ i j t same h. each (suc i) j t (omega (arith, same)) h) in
    cc (here, rest)

-- The slots after a message are those that change as it says, each by itself.
pub tell_exact :
    (msg : ServerMessage) (slots slots' : List PlayerInfo)
    → length slots' ≡ length slots
    → ((i : ℕ) (s : PlayerInfo)
        → get_elem? slots i ≡ some s
        → get_elem? slots' i ≡ some (slot_after msg i s))
    → slots' ≡ tell msg 0 slots
tell_exact msg slots slots' size each =
    tell_from msg 0 slots slots' size
      (λ i j s same h. let here : j ≡ i = omega (arith, same) in rw here (each i s h))
