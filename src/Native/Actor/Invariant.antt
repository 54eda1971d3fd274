-- ===== src/Native/Actor/Invariant.antt =====
-- What holds of the actor of clients/rust/src/native/actor.rs between two rounds of its loop; the
-- children show that each group of handlers keeps it.
pub mod Linked
pub mod Links
pub mod Offering
pub mod Signals
pub mod Lobby
pub mod Ends
pub mod Internals
pub mod Commands
pub mod Reachable
use lobbylink.Base.{
  ◌==◌, ◌||◌, ℕ, ◌≤◌, ◌≡◌, Bool, true, false, List, [], ◌∷◌, Option, none, some, ltb, All,
  if◌then◌else◌, arith, refl, if_both,
}
use lobbylink.Base.Map
use lobbylink.Base.Map.{HashMap}
use lobbylink.Events.{Event}
use lobbylink.Protocol.{SignalPayload, offer, answer, ClientMessage, signal}
use lobbylink.Reassembly.Counters.{IsValid}
use lobbylink.Roster.{PlayerInfo}
use lobbylink.Roster.Laws.{IsRoster}
use lobbylink.Native.Actor.{
  remote_set, add_candidate, Link, Peer, Output, Actor, Shared, contains, put, ws_send,
  rebuild_timer, event,
}
use lobbylink.Native.Actor.Peers.{emit, sync_roster}

-- The link of a looked-up peer.
abbrev pub link_of : Option Peer → Option Link
link_of none = none
link_of (some peer) = some peer.link

-- One peer of the map. We start the exchange exactly with the players whose id is above ours.
pub record IsPeer (self_id counter : ℕ) (closed_links : List ℕ) (i : ℕ) (peer : Peer) : Type 0 where
  pub id : peer.link.player_id ≡ i
  pub direction : peer.link.initiator ≡ ltb self_id i
  pub numbered : peer.link.epoch ≤ counter
  pub alive : contains closed_links peer.link.epoch ≡ false
  pub buffers : IsValid peer.reassembler

-- The peers, the epochs and the watches together.
pub record IsLinked (self_id counter : ℕ) (peers : HashMap Peer) (closed_links : List ℕ)
    (watch : HashMap (Option Link)) : Type 0 where
  pub links :
      (i : ℕ) (peer : Peer)
      → Map.get peers i ≡ some peer
      → IsPeer self_id counter closed_links i peer
  pub apart :
      (i j : ℕ) (p q : Peer)
      → Map.get peers i ≡ some p
      → Map.get peers j ≡ some q
      → p.link.epoch ≡ q.link.epoch
      → i ≡ j
  pub spent : (e : ℕ) → contains closed_links e ≡ true → e ≤ counter
  pub watched : (i : ℕ) (w : Option Link) → Map.get watch i ≡ some w → w ≡ link_of (Map.get peers i)

-- Offers go up and answers go down, so two players never offer to each other.
abbrev pub IsDirected : ℕ → ℕ → SignalPayload → Type 0
IsDirected self_id to (offer sdp) = ltb self_id to ≡ true
IsDirected self_id to (answer sdp) = ltb to self_id ≡ true
IsDirected self_id to _ = Unit

-- The remote description of a connection was set.
abbrev sets : Output → ℕ → Bool
sets (remote_set i sdp) epoch = i == epoch
sets _ epoch = false

unfoldable pub described : ℕ → List Output → Bool
described epoch [] = false
described epoch (o ∷ log) = sets o epoch || described epoch log

-- What may be done after what was done before. A candidate is given to a connection only once its
-- remote description is set.
abbrev pub IsAllowed : ℕ → Output → List Output → Type 0
IsAllowed self_id (ws_send (signal to payload)) log = IsDirected self_id to payload
IsAllowed self_id (rebuild_timer id epoch ms) log =
    (ltb self_id id ≡ true) × (1000 ≤ ms) × (ms ≤ 3000)
IsAllowed self_id (add_candidate epoch candidate) log = described epoch log ≡ true
IsAllowed self_id _ log = Unit

abbrev pub AllAllowed : ℕ → List Output → Type 0
AllAllowed self_id [] = Unit
AllAllowed self_id (o ∷ log) = IsAllowed self_id o log × AllAllowed self_id log

-- A peer whose candidates no longer wait has its remote description.
abbrev pub IsFlushed : HashMap Peer → List Output → Type 0
IsFlushed peers log =
    (i : ℕ) (peer : Peer)
    → Map.get peers i ≡ some peer
    → peer.pending_candidates ≡ none
    → described peer.link.epoch log ≡ true

pub described_later :
    (epoch : ℕ) (o : Output) (log : List Output)
    → described epoch log ≡ true
    → described epoch (o ∷ log) ≡ true
unfolding described
described_later epoch o log h = ground (arith, h)

pub IsFlushed-later :
    (peers : HashMap Peer) (o : Output) (log : List Output)
    → IsFlushed peers log
    → IsFlushed peers (o ∷ log)
IsFlushed-later peers o log v i peer h n = described_later peer.link.epoch o log (v i peer h n)

pub record IsSound (self_id max_players : ℕ) (a : Actor) : Type 0 where
  pub self : a.self_id ≡ self_id
  pub slots : a.max_players ≡ max_players
  pub roster : IsRoster max_players a.roster
  pub shared : a.shared.roster ≡ a.roster
  pub linked : IsLinked self_id a.epoch_counter a.peers a.closed_links a.link_watch
  pub outputs : AllAllowed self_id a.log
  pub flushed : IsFlushed a.peers a.log

module _ {self_id max_players : ℕ} where
  pub put-IsSound :
      (a : Actor) (o : Output)
      → IsAllowed self_id o a.log
      → IsSound self_id max_players a
      → IsSound self_id max_players (put a o)
  put-IsSound a o p v = record {
    self = v.self;
    slots = v.slots;
    roster = v.roster;
    shared = v.shared;
    linked = v.linked;
    outputs = (p, v.outputs);
    flushed = IsFlushed-later a.peers o a.log v.flushed;
  }

  pub emit-IsSound :
      (a : Actor) (e : Event)
      → IsSound self_id max_players a
      → IsSound self_id max_players (emit a e)
  unfolding emit
  emit-IsSound a e v =
      if_both (IsSound self_id max_players) a.closed a (put a (event e)) v
        (put-IsSound a (event e) tt v)

  -- A new roster of the same size, shown to the API as well.
  pub with_roster-IsSound :
      (a : Actor) (roster : List PlayerInfo)
      → IsRoster max_players roster
      → IsSound self_id max_players a
      → IsSound self_id max_players (sync_roster (record a { roster = roster }))
  unfolding sync_roster
  with_roster-IsSound a roster r v = record {
    self = v.self;
    slots = v.slots;
    roster = r;
    shared = refl;
    linked = v.linked;
    outputs = v.outputs;
    flushed = v.flushed;
  }
