-- ===== src/Native/Game.antt =====
-- clients/rust/src/native/mod.rs: the API type P2PGame. A game here is what P2PGame holds; the actor
-- behind its channels is the one of Native.Actor, and the state that both see is `Shared`.
pub mod Storage
pub mod Connect
pub mod Guards
pub mod Tokens
pub mod Joining
pub mod Reading
mod Examples
use lobbylink.Base.{
  ℕ, Bool, true, false, List, Option, none, some, ltb, not, if◌then◌else◌, length, get_elem?, Text,
  codes, decimal, ◌++◌,
}
use lobbylink.Base.Outcome.{Outcome, ok, err, ◌>>=◌, ◌>>◌, reject_if}
use lobbylink.Error.{LobbyError, new, max_best_effort}
use lobbylink.Framing.{max_reliable_message}
use lobbylink.Protocol.{IceServer}
use lobbylink.Roster.{PlayerInfo, check_target}
use lobbylink.Native.Link.{closed_error}
use lobbylink.Native.Actor.{Shared}
use lobbylink.Native.Actor.Messages.{Cmd, send_reliable, send_best_effort, broadcast_best_effort}

pub record Game : Type 0 where
  pub code : Text
  pub self_id : ℕ
  pub max_players : ℕ
  pub resume_token : Text
  pub ice_servers : List IceServer

abbrev best_effort_too_large : ℕ → LobbyError
best_effort_too_large len = new (codes "message-too-large") (
    codes "best-effort payload "
    ++ (decimal len ++ (codes " exceeds " ++ (decimal max_best_effort ++ codes " bytes"))))

abbrev reliable_too_large : ℕ → LobbyError
reliable_too_large len = new (codes "message-too-large") (
    codes "reliable payload "
    ++ (decimal len ++ (codes " exceeds " ++ (decimal max_reliable_message ++ codes " bytes"))))

abbrev unavailable : ℕ → LobbyError
unavailable to = new (codes "target-unavailable") (codes "no player in slot " ++ decimal to)

-- `roster.get(to).is_some_and(|slot| slot.occupied)`
abbrev pub is_occupied : List PlayerInfo → ℕ → Bool
is_occupied roster to = elim (get_elem? roster to) [ none ↦ false | some slot ↦ slot.occupied ]

-- `P2PGame::send_best_effort`: the command that goes to the actor, if it still runs.
unfoldable pub game_send_best_effort : Game → ℕ → List ℕ → Outcome LobbyError Cmd
game_send_best_effort game to bytes = do
  check_target to game.self_id game.max_players
  reject_if (ltb max_best_effort (length bytes)) (best_effort_too_large (length bytes))
  ok (send_best_effort to bytes)

unfoldable pub game_broadcast : List ℕ → Outcome LobbyError Cmd
game_broadcast bytes = do
  reject_if (ltb max_best_effort (length bytes)) (best_effort_too_large (length bytes))
  ok (broadcast_best_effort bytes)

-- `P2PGame::send_reliable` up to the wait for its result; `running` is whether the actor still takes
-- commands, and `job` names the caller.
unfoldable pub game_send_reliable : Game → Shared → Bool → ℕ → List ℕ → ℕ → Outcome LobbyError Cmd
game_send_reliable game shared running to bytes job = do
  check_target to game.self_id game.max_players
  reject_if shared.closed closed_error
  reject_if (not (is_occupied shared.roster to)) (unavailable to)
  reject_if (ltb max_reliable_message (length bytes)) (reliable_too_large (length bytes))
  reject_if (not running) closed_error
  ok (send_reliable to bytes job)

-- The end of `P2PGame::send_reliable`: the sender task's reply, or none when it was dropped.
unfoldable pub reliable_result :
    Option (Outcome LobbyError (Unit {0})) → Outcome LobbyError (Unit {0})
reliable_result none = err closed_error
reliable_result (some result) = result
