-- ===== src/Wasm/Kept/Calls.antt =====
-- What the calls of the API in clients/rust/src/wasm/mod.rs keep. Each of them ends well, borrows of `RefCell`s aside.
use lobbylink.Base.{ℕ, List, [], ◌∷◌, if_both, ltb, not, ◌==◌, ◌&&◌, length, if◌then◌else◌}
use lobbylink.Error.{LobbyError, max_best_effort}
use lobbylink.Framing.{max_reliable_message}
use lobbylink.Roster.{PlayerInfo, check_target}
use lobbylink.Wasm.Links.{closed_error}
use lobbylink.Wasm.Game.{
  Game, best_effort_to_all, is_occupied, game_send_best_effort, game_broadcast, game_send_reliable,
}
use lobbylink.Base.Outcome.{Outcome, ok, err, panic, reject_if, >>=_cases}
use lobbylink.Wasm.{Inner, Web}
use lobbylink.Wasm.Worker.{best_effort_to}
use lobbylink.Base.{arith, ◌≢◌}
use lobbylink.Base.Outcome.{reject_if-ne-panic}
use lobbylink.Wasm.Kept.{IsKept}
use lobbylink.Wasm.Kept.Workers.{best_effort_to_keeps, queue_reliable_keeps}

-- A call that gives a state gives one of the kind, and it is no `panic`.
abbrev pub CallKept : (Inner → Type 0) → Outcome LobbyError Inner → Type 0
CallKept P (ok a) = P a
CallKept P (err e) = Unit
CallKept P panic = ⊥

check_target-ne-panic :
    (to : ℕ) (game : Game) → check_target to game.self_id game.max_players ≢ panic
unfolding check_target
check_target-ne-panic to game h = ground (arith, h)

module _ (P : Inner → Type 0) (k : IsKept P) where
  to_all_keeps :
      (a : Inner) (web : Web) (self_id : ℕ) (bytes : List ℕ) (roster : List PlayerInfo)
      → P a
      → P (best_effort_to_all a web self_id bytes roster)
  unfolding best_effort_to_all
  to_all_keeps a web self_id bytes [] v = v
  to_all_keeps a web self_id bytes (slot ∷ roster) v =
      to_all_keeps
        (if not (slot.id == self_id) && slot.occupied
          then best_effort_to a web slot.id bytes
          else a)
        web self_id bytes roster
        (if_both P (not (slot.id == self_id) && slot.occupied) _ _
          (best_effort_to_keeps P k a web slot.id bytes v) v)

  pub send_best_effort_keeps :
      (game : Game) (a : Inner) (web : Web) (to : ℕ) (bytes : List ℕ)
      → P a
      → CallKept P (game_send_best_effort game a web to bytes)
  unfolding game_send_best_effort
  send_best_effort_keeps game a web to bytes v =
      >>=_cases (CallKept P) (check_target to game.self_id game.max_players) _
        (λ _ _.
          >>=_cases (CallKept P) (reject_if (ltb max_best_effort (length bytes)) _) _
            (λ _ _. if_both P a.closed _ _ v (best_effort_to_keeps P k a web to bytes v)) (λ e. tt)
            (λ h. absurd (reject_if-ne-panic _ _ h)))
        (λ e. tt) (λ h. absurd (check_target-ne-panic to game h))

  pub broadcast_keeps :
      (game : Game) (a : Inner) (web : Web) (bytes : List ℕ)
      → P a
      → CallKept P (game_broadcast game a web bytes)
  unfolding game_broadcast
  broadcast_keeps game a web bytes v =
      >>=_cases (CallKept P) (reject_if (ltb max_best_effort (length bytes)) _) _
        (λ _ _. if_both P a.closed _ _ v (to_all_keeps a web game.self_id bytes a.roster v))
        (λ e. tt) (λ h. absurd (reject_if-ne-panic _ _ h))

  pub send_reliable_keeps :
      (game : Game) (a : Inner) (to : ℕ) (bytes : List ℕ) (done : ℕ)
      → P a
      → CallKept P (game_send_reliable game a to bytes done)
  unfolding game_send_reliable
  send_reliable_keeps game a to bytes done v =
      >>=_cases (CallKept P) (check_target to game.self_id game.max_players) _
        (λ _ _.
          >>=_cases (CallKept P) (reject_if a.closed closed_error) _
            (λ _ _.
              >>=_cases (CallKept P) (reject_if (not (is_occupied a.roster to)) _) _
                (λ _ _.
                  >>=_cases (CallKept P) (reject_if (ltb max_reliable_message (length bytes)) _) _
                    (λ _ _. queue_reliable_keeps P k a to _ v) (λ e. tt)
                    (λ h. absurd (reject_if-ne-panic _ _ h)))
                (λ e. tt) (λ h. absurd (reject_if-ne-panic _ _ h)))
            (λ e. tt) (λ h. absurd (reject_if-ne-panic _ _ h)))
        (λ e. tt) (λ h. absurd (check_target-ne-panic to game h))
