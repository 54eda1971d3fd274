-- ===== src/Reassembly/Counters.antt =====
-- The counters of an unfinished message, and the map of messages under `prune`, insertion and removal.
use lobbylink.Base.{
  ℕ, zero, suc, ◌+◌, ◌≤◌, ◌<◌, ◌≡◌, refl, ap, List, [], ◌∷◌, ◌++◌, Option, none, some, length,
  length-replicate, get_elem?, set, replicate, arith,
}
use lobbylink.Base.Map
use lobbylink.Base.Map.{
  HashMap, get-insert, get-remove, get-retain, Distinct, insert-Distinct, remove-Distinct,
  retain-Distinct,
}
use lobbylink.Base.Outcome.{ok}
use lobbylink.Framing.{Frame, max_reliable_message, max_reassembly_chunks}
use lobbylink.Framing.Sound.{IsAcceptable}
use lobbylink.Reassembly.{Entry, Reassembler, new, keep, prune, drop_resized, fresh_entry, join}

-- The chunks that have come, and their bytes.
unfoldable pub present : List (Option (List ℕ)) → ℕ
present [] = 0
present (none ∷ os) = present os
present (some c ∷ os) = suc (present os)

unfoldable pub stored_bytes : List (Option (List ℕ)) → ℕ
stored_bytes [] = 0
stored_bytes (none ∷ os) = stored_bytes os
stored_bytes (some c ∷ os) = length c + stored_bytes os

-- What holds of an unfinished message.
pub record IsConsistent (e : Entry) : Type 0 where
  pub slots : length e.chunks ≡ e.total
  pub counted : e.received ≡ present e.chunks
  pub sized : e.bytes ≡ stored_bytes e.chunks
  pub unfinished : e.received < e.total
  pub slots_bound : e.total ≤ max_reassembly_chunks
  pub bytes_bound : e.bytes ≤ max_reliable_message

pub record IsValid (r : Reassembler) : Type 0 where
  pub distinct : Distinct r.inflight
  pub entries : (k : ℕ) (e : Entry) → Map.get r.inflight k ≡ some e → IsConsistent e

pub new-IsValid : IsValid new
unfolding Map.get
new-IsValid = record { distinct = tt; entries = λ k e h. cc }

pub present-replicate : (n : ℕ) → present (replicate n none) ≡ 0
unfolding present
present-replicate zero = refl
present-replicate (suc n) = present-replicate n

stored_bytes-replicate : (n : ℕ) → stored_bytes (replicate n none) ≡ 0
unfolding stored_bytes
stored_bytes-replicate zero = refl
stored_bytes-replicate (suc n) = stored_bytes-replicate n

pub present-le-length : (os : List (Option (List ℕ))) → present os ≤ length os
unfolding present
present-le-length [] = omega arith
present-le-length (none ∷ os) = omega (arith, present-le-length os)
present-le-length (some c ∷ os) = omega (arith, present-le-length os)

pub present-set :
    (os : List (Option (List ℕ))) (i : ℕ) (c : List ℕ)
    → get_elem? os i ≡ some none
    → present (set os i (some c)) ≡ suc (present os)
unfolding present
present-set [] i c h = cc
present-set (none ∷ os) zero c h = refl
present-set (some d ∷ os) zero c h = cc
present-set (none ∷ os) (suc i) c h = present-set os i c h
present-set (some d ∷ os) (suc i) c h = ap suc (present-set os i c h)

pub stored_bytes-set :
    (os : List (Option (List ℕ))) (i : ℕ) (c : List ℕ)
    → get_elem? os i ≡ some none
    → stored_bytes (set os i (some c)) ≡ stored_bytes os + length c
unfolding stored_bytes
stored_bytes-set [] i c h = cc
stored_bytes-set (none ∷ os) zero c h = omega arith
stored_bytes-set (some d ∷ os) zero c h = cc
stored_bytes-set (none ∷ os) (suc i) c h = stored_bytes-set os i c h
stored_bytes-set (some d ∷ os) (suc i) c h = omega (arith, stored_bytes-set os i c h)

-- With every chunk there, the join does not panic.
pub join_total :
    (out : List ℕ) (os : List (Option (List ℕ)))
    → length os ≤ present os
    → (message : List ℕ) × (join out os ≡ ok message)
unfolding join present
join_total out [] h = (out, refl)
join_total out (none ∷ os) h = absurd (omega (arith, present-le-length os))
join_total out (some c ∷ os) h = join_total (out ++ c) os (omega arith)

pub fresh_entry-IsConsistent :
    (f : Frame) (now : ℕ) → IsAcceptable f → IsConsistent (fresh_entry f now)
fresh_entry-IsConsistent f now a = record {
  slots = length-replicate f.total none;
  counted = omega (arith, present-replicate f.total);
  sized = omega (arith, stored_bytes-replicate f.total);
  unfinished = a.total_pos;
  slots_bound = a.total_le;
  bytes_bound = omega arith;
}

pub prune-IsValid : (r : Reassembler) (now : ℕ) → IsValid r → IsValid (prune r now)
unfolding prune
prune-IsValid r now v = record {
  distinct = retain-Distinct (keep now) r.inflight v.distinct;
  entries = λ k e h. ground (arith, get-retain (keep now) r.inflight k v.distinct, v.entries k e);
}

pub drop_resized-IsValid :
    (r : Reassembler) (f : Frame)
    → IsValid r
    → IsValid (record { inflight = drop_resized r.inflight f })
unfolding drop_resized
drop_resized-IsValid r f v = record {
  distinct = ground (arith, v.distinct, remove-Distinct r.inflight f.msg_id v.distinct);
  entries = λ k e h. ground (arith, get-remove r.inflight f.msg_id k, v.entries k e);
}

-- An entry whose last chunk may just have come.
pub record IsStored (e : Entry) : Type 0 where
  pub slots : length e.chunks ≡ e.total
  pub counted : e.received ≡ present e.chunks
  pub sized : e.bytes ≡ stored_bytes e.chunks
  pub started : e.received ≤ e.total
  pub slots_bound : e.total ≤ max_reassembly_chunks
  pub bytes_bound : e.bytes ≤ max_reliable_message

pub remove-IsValid :
    (m : HashMap Entry) (k : ℕ)
    → IsValid (record { inflight = m })
    → IsValid (record { inflight = Map.remove m k })
remove-IsValid m k v = record {
  distinct = remove-Distinct m k v.distinct;
  entries = λ j e h. ground (arith, get-remove m k j, v.entries j e);
}

pub insert-IsValid :
    (m : HashMap Entry) (k : ℕ) (entry : Entry)
    → IsValid (record { inflight = m })
    → IsConsistent entry
    → IsValid (record { inflight = Map.insert m k entry })
insert-IsValid m k entry v c = record {
  distinct = insert-Distinct m k entry v.distinct;
  entries = λ j e h. ground (arith, get-insert m k j entry, v.entries j e);
}
