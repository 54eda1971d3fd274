-- ===== src/Wasm/Invariant.antt =====
-- What holds of the state of clients/rust/src/wasm between two steps; the children show that each
-- group of functions keeps it.
pub mod Linked
pub mod Links
pub mod Signals
pub mod Lobby
pub mod Callbacks
pub mod Sends
use lobbylink.Base.{ℕ, ◌+◌, ◌≤◌, ◌≡◌, Bool, true, false, List, Option, none, some, ltb}
use lobbylink.Base.Map
use lobbylink.Base.Map.{HashMap}
use lobbylink.Reassembly.Counters.{IsValid}
use lobbylink.Roster.{PlayerInfo}
use lobbylink.Roster.Laws.{IsRoster}
use lobbylink.Wasm.{Link, Inner}

-- One link, under its epoch. We start the exchange exactly with the players whose id is above ours.
pub record IsLink (self_id counter epoch : ℕ) (l : Link) : Type 0 where
  pub named : l.epoch ≡ epoch
  pub numbered : epoch ≤ counter
  pub direction : l.initiator ≡ ltb self_id l.player_id
  pub buffers : IsValid l.reassembler

-- The open links are exactly those of the peers, each under its player.
pub record IsLinked (self_id counter : ℕ) (peers : HashMap ℕ) (links : HashMap Link) : Type 0 where
  pub each : (epoch : ℕ) (l : Link) → Map.get links epoch ≡ some l → IsLink self_id counter epoch l
  pub held :
      (k epoch : ℕ)
      → Map.get peers k ≡ some epoch
      → (l : Link) × (Map.get links epoch ≡ some l) × (l.player_id ≡ k) × (l.closed ≡ false)
  pub current :
      (epoch : ℕ) (l : Link)
      → Map.get links epoch ≡ some l
      → l.closed ≡ false
      → Map.get peers l.player_id ≡ some epoch

-- The parts of the state that the invariant reads.
pub record IsSoundOf (self_id max_players id slots counter : ℕ) (roster : List PlayerInfo)
    (closed : Bool) (peers : HashMap ℕ) (links : HashMap Link) : Type 0 where
  pub self : id ≡ self_id
  pub slots_kept : slots ≡ max_players
  pub roster_kept : IsRoster max_players roster
  pub linked : IsLinked self_id counter peers links
  pub shut : closed ≡ true → (k : ℕ) → Map.get peers k ≡ none

abbrev pub IsSound : ℕ → ℕ → Inner → Type 0
IsSound self_id max_players a =
    IsSoundOf self_id max_players a.self_id a.max_players a.epoch_counter a.roster a.closed a.peers
      a.links
