-- ===== src/Room/Same.antt =====
-- Both backends of clients/rust/src show the application the same room.
use lobbylink.Base.{ℕ, ◌≡◌, ◌∙◌, sym, ap, false, List}
use lobbylink.Protocol.{ServerMessage}
use lobbylink.Native.Actor.{Rtc, Actor}
use lobbylink.Native.Actor.Invariant as ActorOf
use lobbylink.Wasm.{Inner, Web}
use lobbylink.Wasm.Invariant as BrowserOf
use lobbylink.Room.{messages, room_after}
use lobbylink.Room.Actor.{actor_room, run_actor, run_actor_refines}
use lobbylink.Room.Browser.{browser_room, run_browser, run_browser_refines}

module _ {self_id max_players self_id' max_players' : ℕ} where
  -- An actor and a browser backend that show the same roster and have reported the same events still do
  -- so after the same messages of the lobby, whatever webrtc and the browser answer meanwhile, as long
  -- as both games are open.
  pub backends_agree :
      (a : Actor) (b : Inner) (msgs : List (Rtc × ServerMessage))
      (msgs' : List (Web × ServerMessage))
      → ActorOf.IsSound self_id max_players a
      → BrowserOf.IsSound self_id' max_players' b
      → a.closed ≡ false
      → b.closed ≡ false
      → actor_room a ≡ browser_room b
      → messages msgs ≡ messages msgs'
      → actor_room (run_actor a msgs) ≡ browser_room (run_browser b msgs')
  backends_agree a b msgs msgs' v w live live' same heard =
      run_actor_refines msgs a v live
      ∙ (ap (λ room. room_after room (messages msgs)) same
          ∙ (ap (λ ms. room_after (browser_room b) ms) heard
              ∙ sym (run_browser_refines msgs' b w live')))
