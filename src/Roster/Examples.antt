-- ===== src/Roster/Examples.antt =====
-- Rosters: tests, and the theorems at concrete snapshots.
use lobbylink.Base.{ℕ, ◌<◌, ◌≡◌, refl, true, false, List, [], ◌∷◌, some, length, get_elem?}
use lobbylink.Roster.{WirePlayer, fill_slots, empty_slots, modify, roster_from_snapshot}
use lobbylink.Roster.Laws.{last_said, roster_from_snapshot_exact}

-- Player 2 is named twice, and player 9 has no slot.
abbrev snapshot : List WirePlayer
snapshot =
    record { id = 2; occupied = true; connected = false }
    ∷ record { id = 9; occupied = true; connected = true }
    ∷ record { id = 2; occupied = true; connected = true }
    ∷ []

roster_from_snapshot_slots :
    roster_from_snapshot 3 snapshot
    ≡ record { id = 0; occupied = false; connected = false }
      ∷ record { id = 1; occupied = false; connected = false }
      ∷ record { id = 2; occupied = true; connected = true }
      ∷ []
unfolding roster_from_snapshot fill_slots empty_slots modify
roster_from_snapshot_slots = refl

roster_from_snapshot_exact_example :
    (length (roster_from_snapshot 3 snapshot) ≡ 3)
    × ((i : ℕ)
        → i < 3
        → get_elem? (roster_from_snapshot 3 snapshot) i
          ≡ some (last_said i (record { id = i; occupied = false; connected = false }) snapshot))
roster_from_snapshot_exact_example = roster_from_snapshot_exact 3 snapshot
