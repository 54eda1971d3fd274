-- ===== src/Roster/Laws.antt =====
-- What a roster built from a snapshot shows, slot by slot, and what `check_target` lets pass.
use lobbylink.Base.{
  get_elem?-lt, lt-get_elem?, ℕ, zero, suc, ◌+◌, ◌<◌, ◌≡◌, ◌≢◌, ◌↔◌, refl, ap, ◌∙◌, false, List, [],
  ◌∷◌, Option, some, ◌==◌, if◌then◌else◌, length, get_elem?, codes, arith,
}
use lobbylink.Base.Outcome.{ok, err}
use lobbylink.Error.{LobbyError}
use lobbylink.Roster.{
  said, PlayerInfo, WirePlayer, modify, empty_slots, fill_slots, roster_from_snapshot, check_target,
}

-- Slot `i` has the id `i`, and there are `n` slots.
pub record IsRoster (n : ℕ) (roster : List PlayerInfo) : Type 0 where
  pub size : length roster ≡ n
  pub ids : (i : ℕ) (s : PlayerInfo) → get_elem? roster i ≡ some s → s.id ≡ i

-- What the snapshot says last of slot `i`, if it says anything; `s` is the slot before.
unfoldable pub last_said : ℕ → PlayerInfo → List WirePlayer → PlayerInfo
last_said i s [] = s
last_said i s (p ∷ players) = last_said i (if p.id == i then said p s else s) players

pub length-modify :
    (roster : List PlayerInfo) (i : ℕ) (f : PlayerInfo → PlayerInfo)
    → length (modify roster i f) ≡ length roster
unfolding modify
length-modify [] i f = refl
length-modify (s ∷ roster) zero f = refl
length-modify (s ∷ roster) (suc i) f = ap suc (length-modify roster i f)

pub get_elem?-modify :
    (roster : List PlayerInfo) (i j : ℕ) (f : PlayerInfo → PlayerInfo) (s : PlayerInfo)
    → get_elem? roster j ≡ some s
    → get_elem? (modify roster i f) j ≡ some (if i == j then f s else s)
unfolding modify
get_elem?-modify [] i j f s h = cc
get_elem?-modify (x ∷ roster) zero zero f s h = ground arith
get_elem?-modify (x ∷ roster) zero (suc j) f s h = ground arith
get_elem?-modify (x ∷ roster) (suc i) zero f s h = ground arith
get_elem?-modify (x ∷ roster) (suc i) (suc j) f s h =
    ground (arith, get_elem?-modify roster i j f s h)

length-empty_slots : (n id : ℕ) → length (empty_slots n id) ≡ n
unfolding empty_slots
length-empty_slots zero id = refl
length-empty_slots (suc n) id = ap suc (length-empty_slots n (suc id))

get_elem?-empty_slots :
    (n id i : ℕ)
    → i < n
    → get_elem? (empty_slots n id) i
      ≡ some (record { id = id + i; occupied = false; connected = false })
unfolding empty_slots
get_elem?-empty_slots zero id i h = absurd (omega arith)
get_elem?-empty_slots (suc n) id zero h = ground arith
get_elem?-empty_slots (suc n) id (suc i) h = ground (arith, get_elem?-empty_slots n (suc id) i)

length-fill_slots :
    (roster : List PlayerInfo) (players : List WirePlayer)
    → length (fill_slots roster players) ≡ length roster
unfolding fill_slots
length-fill_slots roster [] = refl
length-fill_slots roster (p ∷ players) =
    length-fill_slots (modify roster p.id (said p)) players ∙ length-modify roster p.id (said p)

get_elem?-fill_slots :
    (roster : List PlayerInfo) (players : List WirePlayer) (i : ℕ) (s : PlayerInfo)
    → get_elem? roster i ≡ some s
    → get_elem? (fill_slots roster players) i ≡ some (last_said i s players)
unfolding fill_slots last_said
get_elem?-fill_slots roster [] i s h = h
get_elem?-fill_slots roster (p ∷ players) i s h =
    get_elem?-fill_slots (modify roster p.id (said p)) players i (if p.id == i then said p s else s)
      (get_elem?-modify roster p.id i (said p) s h)

abbrev slot_free : ℕ → Option PlayerInfo
slot_free i = some (record { id = i; occupied = false; connected = false })

-- A snapshot of any content gives a roster of exactly `max_players` slots; slot `i` shows what the
-- snapshot said last of player `i`, and is free if it said nothing.
pub roster_from_snapshot_exact :
    (max_players : ℕ) (players : List WirePlayer)
    → (length (roster_from_snapshot max_players players) ≡ max_players)
      × ((i : ℕ)
          → i < max_players
          → get_elem? (roster_from_snapshot max_players players) i
            ≡ some (last_said i (record { id = i; occupied = false; connected = false }) players))
unfolding roster_from_snapshot
roster_from_snapshot_exact n players = (
  length-fill_slots (empty_slots n 0) players ∙ length-empty_slots n 0,
  λ i h.
      get_elem?-fill_slots (empty_slots n 0) players i _
        (get_elem?-empty_slots n 0 i h ∙ ap slot_free (omega arith)),
)

-- `check_target` passes exactly the other players' slots; what it refuses has one error code.
pub check_target_exact :
    (to self_id max_players : ℕ)
    → ((check_target to self_id max_players ≡ ok tt) ↔ ((to < max_players) × (to ≢ self_id)))
      × ((e : LobbyError)
          → check_target to self_id max_players ≡ err e
          → e.code ≡ codes "invalid-target")
unfolding check_target
check_target_exact to self_id max_players =
    ((λ h. ground arith, λ h. ground arith), λ e h. ground arith)

last_said-id :
    (i : ℕ) (s : PlayerInfo) (players : List WirePlayer) → (last_said i s players).id ≡ s.id
unfolding last_said
last_said-id i s [] = refl
last_said-id i s (p ∷ players) =
    last_said-id i (if p.id == i then said p s else s) players ∙ ground arith

pub roster_from_snapshot-IsRoster :
    (n : ℕ) (players : List WirePlayer) → IsRoster n (roster_from_snapshot n players)
roster_from_snapshot-IsRoster n players =
    let (size, slots) = roster_from_snapshot_exact n players in
    record {
      size = size;
      ids = λ i s h.
          let shown = slots i (omega (arith, size, get_elem?-lt _ i s h)) in
          ground (
            arith,
            shown,
            last_said-id i (record { id = i; occupied = false; connected = false }) players,
          );
    }

-- A change that leaves the id alone keeps a roster a roster.
pub modify-IsRoster :
    (n : ℕ) (roster : List PlayerInfo) (i : ℕ) (f : PlayerInfo → PlayerInfo)
    → ((s : PlayerInfo) → (f s).id ≡ s.id)
    → IsRoster n roster
    → IsRoster n (modify roster i f)
modify-IsRoster n roster i f keeps v = record {
  size = length-modify roster i f ∙ v.size;
  ids = λ j s h.
      let (old, was) =
        lt-get_elem? roster j (omega (arith, length-modify roster i f, get_elem?-lt _ j s h)) in
      ground (arith, get_elem?-modify roster i j f old was, keeps old, v.ids j old was);
}
