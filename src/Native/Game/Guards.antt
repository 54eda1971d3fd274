-- ===== src/Native/Game/Guards.antt =====
-- What the sends of the API let through.
use lobbylink.Base.{
  ℕ, ◌≤◌, ◌<◌, ◌≡◌, ◌≢◌, ◌↔◌, ◌⊎◌, Bool, true, false, List, length, Text, codes, arith,
}
use lobbylink.Base.Outcome.{ok, err, panic}
use lobbylink.Error.{LobbyError, max_best_effort}
use lobbylink.Framing.{max_reliable_message}
use lobbylink.Roster.{check_target}
use lobbylink.Native.Actor.{Shared}
use lobbylink.Native.Actor.Messages.{send_reliable, send_best_effort}
use lobbylink.Native.Game.{Game, is_occupied, game_send_reliable, game_send_best_effort}

-- The codes that a refused send can have.
abbrev pub IsRefusal : Text → Type 0
IsRefusal code =
    (code ≡ codes "invalid-target")
    ⊎ (code ≡ codes "closed")
    ⊎ (code ≡ codes "target-unavailable")
    ⊎ (code ≡ codes "message-too-large")

-- A reliable send goes to the actor exactly when the target is another player's slot, the game is
-- open, the slot is occupied, the message has at most 16 MiB and the actor still runs; else it is
-- refused with one of four codes, and never panics.
pub game_send_reliable_exact :
    (game : Game) (shared : Shared) (running : Bool) (to : ℕ) (bytes : List ℕ) (job : ℕ)
    → ((game_send_reliable game shared running to bytes job ≡ ok (send_reliable to bytes job)) ↔ (
        (to < game.max_players)
        × (to ≢ game.self_id)
        × (shared.closed ≡ false)
        × (is_occupied shared.roster to ≡ true)
        × (length bytes ≤ max_reliable_message)
        × (running ≡ true)))
      × ((e : LobbyError)
          → game_send_reliable game shared running to bytes job ≡ err e
          → IsRefusal e.code)
      × (game_send_reliable game shared running to bytes job ≢ panic)
unfolding game_send_reliable check_target
game_send_reliable_exact game shared running to bytes job =
    ((λ h. ground arith, λ h. ground arith), λ e h. ground arith, λ h. ground arith)

-- A datagram goes to the actor exactly when the target is another player's slot and it has at most
-- 16000 bytes.
pub game_send_best_effort_exact :
    (game : Game) (to : ℕ) (bytes : List ℕ)
    → ((game_send_best_effort game to bytes ≡ ok (send_best_effort to bytes))
        ↔ ((to < game.max_players) × (to ≢ game.self_id) × (length bytes ≤ max_best_effort)))
      × ((e : LobbyError) → game_send_best_effort game to bytes ≡ err e → IsRefusal e.code)
unfolding game_send_best_effort check_target
game_send_best_effort_exact game to bytes =
    ((λ h. ground arith, λ h. ground arith), λ e h. ground arith)
