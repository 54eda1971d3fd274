-- ===== src/Roster.antt =====
-- clients/rust/src/core/roster.rs: the public view of the room's slots.
pub mod Laws
mod Examples
use lobbylink.Base.{
  ℕ, zero, suc, ◌+◌, ◌-◌, Bool, true, false, List, [], ◌∷◌, ◌++◌, Option, none, some, leb, ◌==◌,
  if◌then◌else◌, length, codes, decimal,
}
use lobbylink.Base.Outcome.{Outcome, ok, err, ◌>>=◌, ◌>>◌, reject_if}
use lobbylink.Error.{LobbyError, new}

pub record PlayerInfo : Type 0 where
  pub id : ℕ
  pub occupied : Bool
  pub connected : Bool

-- `WirePlayer` of core/protocol.rs.
pub record WirePlayer : Type 0 where
  pub id : ℕ
  pub occupied : Bool
  pub connected : Bool

-- `if let Some(slot) = roster.get_mut(i) { … }`
unfoldable pub modify : List PlayerInfo → ℕ → (PlayerInfo → PlayerInfo) → List PlayerInfo
modify [] i f = []
modify (s ∷ roster) zero f = f s ∷ roster
modify (s ∷ roster) (suc i) f = s ∷ modify roster i f

-- `(id..id + n).map(…)`
unfoldable pub empty_slots : ℕ → ℕ → List PlayerInfo
empty_slots zero id = []
empty_slots (suc n) id =
    record { id = id; occupied = false; connected = false } ∷ empty_slots n (suc id)

-- What the snapshot says of a player, put into the slot.
abbrev pub said : WirePlayer → PlayerInfo → PlayerInfo
said p slot = record { id = slot.id; occupied = p.occupied; connected = p.connected }

unfoldable pub fill_slots : List PlayerInfo → List WirePlayer → List PlayerInfo
fill_slots roster [] = roster
fill_slots roster (p ∷ players) = fill_slots (modify roster p.id (said p)) players

unfoldable pub roster_from_snapshot : ℕ → List WirePlayer → List PlayerInfo
roster_from_snapshot max_players players = fill_slots (empty_slots max_players 0) players

unfoldable pub check_target : ℕ → ℕ → ℕ → Outcome LobbyError (Unit {0})
check_target to self_id max_players = do
  reject_if (leb max_players to) (
      new (codes "invalid-target") (
        codes "player id "
        ++ (decimal to ++ (codes " out of range 0.." ++ decimal (max_players - 1)))))
  reject_if (to == self_id) (new (codes "invalid-target") (codes "cannot send to yourself"))
  ok tt
