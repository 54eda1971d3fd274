-- ===== src/Wasm/Stats.antt =====
-- clients/rust/src/wasm/inner.rs, `report_candidate_pair`: which candidate types the statistics of a
-- connection name. The report is the list of its entries, each with the fields that are read; a
-- field that is absent, null or of another type is none.
use lobbylink.Base.{
  Bool, false, List, [], ◌∷◌, Option, none, some, if◌then◌else◌, ◌&&◌, ◌||◌, Text, codes, text_eq,
}

pub record Stat : Type 0 where
  pub key : Text
  pub kind : Option Text
  pub id : Option Text
  pub selected_pair : Option Text
  pub selected : Bool
  pub nominated : Bool
  pub state : Option Text
  pub local_candidate : Option Text
  pub remote_candidate : Option Text
  pub candidate_type : Option Text

abbrev is_text : Option Text → Text → Bool
is_text none t = false
is_text (some s) t = text_eq s t

-- The first loop: the last transport that names a pair.
unfoldable pub transport_pair : Option Text → List Stat → Option Text
transport_pair found [] = found
transport_pair found (s ∷ stats) =
    transport_pair
      (if is_text s.kind (codes "transport")
        then (elim s.selected_pair [ none ↦ found | some id ↦ some id ])
        else found)
      stats

-- The second loop: the last pair that is selected, or nominated and done.
unfoldable pub chosen_pair : Option Text → List Stat → Option Text
chosen_pair found [] = found
chosen_pair found (s ∷ stats) =
    chosen_pair
      (if is_text s.kind (codes "candidate-pair")
          && (s.selected || (s.nominated && is_text s.state (codes "succeeded")))
        then (elim s.id [ none ↦ found | some id ↦ some id ])
        else found)
      stats

-- `map.get`
unfoldable pub find_stat : Text → List Stat → Option Stat
find_stat key [] = none
find_stat key (s ∷ stats) = if text_eq s.key key then some s else find_stat key stats

unfoldable pub candidate_type_of : List Stat → Option Text → Text
candidate_type_of stats none = codes "unknown"
candidate_type_of stats (some id) = elim (find_stat id stats) [
  | none ↦ codes "unknown"
  | some c ↦ elim c.candidate_type [ none ↦ codes "unknown" | some t ↦ t ]
]

unfoldable pub pair_id : List Stat → Option Text
pair_id stats = elim (transport_pair none stats) [
  | none ↦ chosen_pair none stats
  | some id ↦ some id
]

-- The candidate types of the pair in use, local and remote.
unfoldable pub candidate_pair : List Stat → Option (Text × Text)
candidate_pair stats = elim (pair_id stats) [
  | none ↦ none
  | some id ↦ elim (find_stat id stats) [
    | none ↦ none
    | some pair ↦ some (
      candidate_type_of stats pair.local_candidate,
      candidate_type_of stats pair.remote_candidate,
    )
  ]
]
