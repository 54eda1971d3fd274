-- ===== src/Room/Browser.antt =====
-- The browser backend keeps to the room: clients/rust/src/wasm/inner.rs.
use lobbylink.Base.{
  ℕ, ◌≡◌, refl, ◌∙◌, sym, ap, false, List, [], ◌∷◌, ◌++◌, if_cases, arith, get_elem?, get_elem?-lt,
  some,
}
use lobbylink.Protocol.{ServerMessage}
use lobbylink.Wasm.{Inner, Web}
use lobbylink.Wasm.Lobby.{handle_server_message, on_ws_message}
use lobbylink.Wasm.Unseen.{events, View, view, seen_as}
use lobbylink.Wasm.Effects.{roster_next, handle_open_seen, roster_next_slots}
use lobbylink.Wasm.Invariant.{IsSound}
use lobbylink.Wasm.Invariant.Lobby.{on_ws_message-IsSound}
use lobbylink.Room.{messages, event_of, Room, room_step, room_after, tell_exact, tell}

-- The room as the browser backend has it.
abbrev pub browser_room : Inner → Room
browser_room a = record { slots = a.roster; reported = events a.log }

-- The messages of the lobby, each with what the browser answers meanwhile.
unfoldable pub run_browser : Inner → List (Web × ServerMessage) → Inner
run_browser a [] = a
run_browser a ((web, msg) ∷ rest) = run_browser (handle_server_message a web msg) rest

opened_seen :
    (a : Inner) (web : Web) (msg : ServerMessage)
    → a.closed ≡ false
    → view (handle_server_message a web msg)
      ≡ seen_as (roster_next a msg) false (event_of msg ++ events a.log)
unfolding handle_server_message
opened_seen a web msg live =
    if_cases
      (λ (b : Inner). view b ≡ seen_as (roster_next a msg) false (event_of msg ++ events a.log))
      a.closed _ _ (λ h. absurd (ground (arith, h, live))) (λ _. handle_open_seen a web msg live)

module _ {self_id max_players : ℕ} where
  message-IsSound :
      (a : Inner) (web : Web) (msg : ServerMessage)
      → IsSound self_id max_players a
      → IsSound self_id max_players (handle_server_message a web msg)
  unfolding on_ws_message
  message-IsSound a web msg v = on_ws_message-IsSound a web (some msg) v

  browser_step :
      (a : Inner) (web : Web) (msg : ServerMessage)
      → IsSound self_id max_players a
      → a.closed ≡ false
      → browser_room (handle_server_message a web msg) ≡ room_step (browser_room a) msg
  unfolding room_step
  browser_step a web msg v live =
      let seen = opened_seen a web msg live in
      let roster : (handle_server_message a web msg).roster ≡ roster_next a msg =
        ap (λ (w : View). w.roster) seen in
      let v' = message-IsSound a web msg v in
      let slots : (handle_server_message a web msg).roster ≡ tell msg 0 a.roster =
        tell_exact msg a.roster (handle_server_message a web msg).roster
          (v'.roster_kept.size ∙ sym v.roster_kept.size)
          (λ i s here.
            ap (λ r. get_elem? r i) roster
            ∙ roster_next_slots a msg i s
                (omega (arith, v.slots_kept, v.roster_kept.size, get_elem?-lt a.roster i s here))
                here) in
      cc (slots, seen)

  -- The browser backend implements the room: as long as the game is open, any messages of the lobby,
  -- whatever the browser answers meanwhile, leave the slots and the events that the room has after
  -- the same messages.
  pub run_browser_refines :
      (msgs : List (Web × ServerMessage)) (a : Inner)
      → IsSound self_id max_players a
      → a.closed ≡ false
      → browser_room (run_browser a msgs) ≡ room_after (browser_room a) (messages msgs)
  unfolding run_browser messages room_after
  run_browser_refines [] a v live = refl
  run_browser_refines ((web, msg) ∷ rest) a v live =
      run_browser_refines rest (handle_server_message a web msg) (message-IsSound a web msg v)
        (ap (λ (w : View). w.closed) (opened_seen a web msg live))
      ∙ ap (λ room. room_after room (messages rest)) (browser_step a web msg v live)
