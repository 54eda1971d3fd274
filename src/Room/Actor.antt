-- ===== src/Room/Actor.antt =====
-- The native backend keeps to the room: clients/rust/src/native/actor.rs.
use lobbylink.Base.{
  ℕ, ◌≡◌, refl, ◌∙◌, sym, Bool, true, false, List, [], ◌∷◌, ◌++◌, if_both, if◌then◌else◌, ap, arith,
  get_elem?-lt, Text,
}
use lobbylink.Events.{Event, from_wire}
use lobbylink.Protocol.{
  ServerMessage, joined, player_joined, player_left, player_rejoined, player_replaced, room_started,
  signal_from, error, unknown_message, is_fatal_code, is_game_over_code,
}
use lobbylink.Native.Actor.{Rtc, Actor}
use lobbylink.Native.Actor.Peers.{emit, sync_roster}
use lobbylink.Native.Actor.Lobby.{game_over, handle_error, handle_server_message}
use lobbylink.Native.Actor.Unseen.{events, reset_peer-IsReset}
use lobbylink.Native.Actor.Unseen.Signals.{handle_signal-IsUnseen}
use lobbylink.Native.Actor.Effects.{
  close_if_left-IsUnseen, game_over-IsUnseen, handle_server_message_exact,
  handle_server_message_reported,
}
use lobbylink.Native.Actor.Invariant.{IsSound}
use lobbylink.Native.Actor.Invariant.Lobby.{handle_server_message-IsSound}
use lobbylink.Room.{messages, event_of, Room, room_step, room_after, tell_exact}

-- The room as the actor has it.
abbrev pub actor_room : Actor → Room
actor_room a = record { slots = a.roster; reported = events a.log }

-- The messages of the lobby, each with what the webrtc crate answers meanwhile.
unfoldable pub run_actor : Actor → List (Rtc × ServerMessage) → Actor
run_actor a [] = a
run_actor a ((rtc, msg) ∷ rest) = run_actor (handle_server_message a rtc msg) rest

closed-emit : (a : Actor) (e : Event) → (emit a e).closed ≡ a.closed
unfolding emit
closed-emit a e = ground arith

closed-game_over :
    (a : Actor) (code : Text) (b : Bool) → (if b then game_over a code else a).closed ≡ a.closed
closed-game_over a code b =
    if_both (λ (x : Actor). x.closed ≡ a.closed) b _ _ (game_over-IsUnseen a code).closed refl

closed-handle_error :
    (a : Actor) (code message : Text) → (handle_error a code message).closed ≡ a.closed
unfolding handle_error
closed-handle_error a code message =
    if_both (λ (x : Actor). x.closed ≡ a.closed) (is_fatal_code code) _ _
      (closed-emit _ _
        ∙ closed-game_over (record a { fatal_seen = true }) code (is_game_over_code code))
      (closed-emit a _)

closed-handle_server_message :
    (a : Actor) (rtc : Rtc) (msg : ServerMessage)
    → (handle_server_message a rtc msg).closed ≡ a.closed
unfolding handle_server_message sync_roster
closed-handle_server_message a rtc (player_joined k players) =
    (reset_peer-IsReset _ rtc k).closed ∙ closed-emit _ _
closed-handle_server_message a rtc (player_left k reason) =
    closed-emit _ _ ∙ (close_if_left-IsUnseen _ k (from_wire reason)).closed
closed-handle_server_message a rtc (player_rejoined k was_replacement) =
    (reset_peer-IsReset _ rtc k).closed ∙ closed-emit _ _
closed-handle_server_message a rtc (player_replaced k) =
    (reset_peer-IsReset _ rtc k).closed ∙ closed-emit _ _
closed-handle_server_message a rtc room_started = closed-emit _ _
closed-handle_server_message a rtc (signal_from from payload) =
    (handle_signal-IsUnseen a rtc from payload).closed
closed-handle_server_message a rtc (error code message) = closed-handle_error a code message
closed-handle_server_message a rtc (joined msg) = refl
closed-handle_server_message a rtc unknown_message = refl

module _ {self_id max_players : ℕ} where
  -- One message.
  actor_step :
      (a : Actor) (rtc : Rtc) (msg : ServerMessage)
      → IsSound self_id max_players a
      → a.closed ≡ false
      → actor_room (handle_server_message a rtc msg) ≡ room_step (actor_room a) msg
  unfolding room_step
  actor_step a rtc msg v live =
      let v' = handle_server_message-IsSound a rtc msg v in
      let slots =
        tell_exact msg a.roster (handle_server_message a rtc msg).roster
          (v'.roster.size ∙ sym v.roster.size)
          (λ i s here.
            (handle_server_message_exact a rtc msg i s
              (omega (arith, v.slots, v.roster.size, get_elem?-lt a.roster i s here)) here).0) in
      let reported : events (handle_server_message a rtc msg).log ≡ event_of msg ++ events a.log =
        handle_server_message_reported a rtc msg ∙ ground (arith, live) in
      cc (slots, reported)

  -- The native actor implements the room: as long as the game is open, any messages of the lobby,
  -- whatever the webrtc crate answers meanwhile, leave the slots and the events that the room has
  -- after the same messages.
  pub run_actor_refines :
      (msgs : List (Rtc × ServerMessage)) (a : Actor)
      → IsSound self_id max_players a
      → a.closed ≡ false
      → actor_room (run_actor a msgs) ≡ room_after (actor_room a) (messages msgs)
  unfolding run_actor messages room_after
  run_actor_refines [] a v live = refl
  run_actor_refines ((rtc, msg) ∷ rest) a v live =
      run_actor_refines rest (handle_server_message a rtc msg)
        (handle_server_message-IsSound a rtc msg v) (closed-handle_server_message a rtc msg ∙ live)
      ∙ ap (λ room. room_after room (messages rest)) (actor_step a rtc msg v live)
