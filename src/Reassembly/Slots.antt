-- ===== src/Reassembly/Slots.antt =====
-- The slots of a message: which chunks have come, and what a push finds there.
use lobbylink.Base.{
  ℕ, zero, suc, ◌≤◌, ◌≡◌, ◌≢◌, refl, sym, ap, ◌∙◌, Bool, List, [], ◌∷◌, ◌++◌, Option, none, some,
  leb, ◌==◌, if◌then◌else◌, length, length-append, get_elem?, set, replicate, arith,
}
use mathlib.Core.List.{append-nil, append_assoc}
use lobbylink.Base.Map
use lobbylink.Base.Map.{HashMap, get-insert, get-remove}
use lobbylink.Base.Outcome.{ok}
use lobbylink.Framing.{Frame}
use lobbylink.Reassembly.{Entry, Reassembler, prune, drop_resized, entry_for, join, finish}
use lobbylink.Reassembly.Invariant.{met_map, met_entry}
use lobbylink.Reassembly.Counters.{present, stored_bytes, present-le-length}

-- A message, as the list of its chunks.
unfoldable pub concat : List (List ℕ) → List ℕ
concat [] = []
concat (c ∷ cs) = c ++ concat cs

-- Every chunk that has come is the message's chunk at its place.
abbrev pub Agrees : List (List ℕ) → List (Option (List ℕ)) → Type 0
Agrees [] [] = Unit {0}
Agrees [] (o ∷ os) = ⊥
Agrees (c ∷ cs) [] = ⊥
Agrees (c ∷ cs) (none ∷ os) = Agrees cs os
Agrees (c ∷ cs) (some d ∷ os) = (d ≡ c) × Agrees cs os

-- The slots of message `k` of `n` chunks: all empty if it has not begun.
unfoldable pub pending : HashMap Entry → ℕ → ℕ → List (Option (List ℕ))
pending m k n = elim (Map.get m k) [
  | none ↦ replicate n none
  | some e ↦ if e.total == n then e.chunks else replicate n none
]

-- A chunk is kept unless its slot is taken.
unfoldable pub set_once : List (Option (List ℕ)) → ℕ → List ℕ → List (Option (List ℕ))
set_once os i c = elim (get_elem? os i) [
  | none ↦ os
  | some none ↦ set os i (some c)
  | some (some d) ↦ os
]

pub Agrees-replicate : (cs : List (List ℕ)) → Agrees cs (replicate (length cs) none)
Agrees-replicate [] = tt
Agrees-replicate (c ∷ cs) = Agrees-replicate cs

Agrees-length :
    (cs : List (List ℕ)) (os : List (Option (List ℕ))) → Agrees cs os → length os ≡ length cs
Agrees-length [] [] h = refl
Agrees-length [] (o ∷ os) h = absurd h
Agrees-length (c ∷ cs) [] h = absurd h
Agrees-length (c ∷ cs) (none ∷ os) h = ap suc (Agrees-length cs os h)
Agrees-length (c ∷ cs) (some d ∷ os) h = ap suc (Agrees-length cs os h.1)

Agrees-set :
    (cs : List (List ℕ)) (os : List (Option (List ℕ))) (i : ℕ) (c : List ℕ)
    → get_elem? cs i ≡ some c
    → Agrees cs os
    → Agrees cs (set os i (some c))
Agrees-set [] [] i c e h = tt
Agrees-set [] (o ∷ os) i c e h = absurd h
Agrees-set (b ∷ cs) [] i c e h = absurd h
Agrees-set (b ∷ cs) (none ∷ os) zero c e h = (cc, h)
Agrees-set (b ∷ cs) (some d ∷ os) zero c e h = (cc, h.1)
Agrees-set (b ∷ cs) (none ∷ os) (suc i) c e h = Agrees-set cs os i c e h
Agrees-set (b ∷ cs) (some d ∷ os) (suc i) c e h = (h.0, Agrees-set cs os i c e h.1)

pub stored_bytes-le :
    (cs : List (List ℕ)) (os : List (Option (List ℕ)))
    → Agrees cs os
    → stored_bytes os ≤ length (concat cs)
unfolding stored_bytes concat
stored_bytes-le [] [] h = omega arith
stored_bytes-le [] (o ∷ os) h = absurd h
stored_bytes-le (c ∷ cs) [] h = absurd h
stored_bytes-le (c ∷ cs) (none ∷ os) h =
    omega (arith, stored_bytes-le cs os h, length-append c (concat cs))
stored_bytes-le (c ∷ cs) (some d ∷ os) h =
    omega (arith, stored_bytes-le cs os h.1, length-append c (concat cs), ap length h.0)

-- With every chunk there, the join is the message.
join-concat :
    (out : List ℕ) (cs : List (List ℕ)) (os : List (Option (List ℕ)))
    → Agrees cs os
    → length cs ≤ present os
    → join out os ≡ ok (out ++ concat cs)
unfolding join present concat
join-concat out [] [] a h = ap ok (sym (append-nil out))
join-concat out [] (o ∷ os) a h = absurd a
join-concat out (c ∷ cs) [] a h = absurd a
join-concat out (c ∷ cs) (none ∷ os) a h =
    absurd (omega (arith, present-le-length os, Agrees-length cs os a))
join-concat out (c ∷ cs) (some d ∷ os) a h =
    join-concat (out ++ d) cs os a.1 (omega arith)
    ∙ ap ok (append_assoc out d (concat cs) ∙ ap (λ x. out ++ (x ++ concat cs)) a.0)

abbrev pub is_complete : List (List ℕ) → List (Option (List ℕ)) → Bool
is_complete cs os = leb (length cs) (present os)

pub finish_delivers :
    (m : HashMap Entry) (f : Frame) (e : Entry) (cs : List (List ℕ))
    → Agrees cs e.chunks
    → e.total ≡ length cs
    → e.received ≡ present e.chunks
    → finish (Map.insert m f.msg_id e) f e
      ≡ ok (
        record {
          inflight =
              if is_complete cs e.chunks
              then Map.remove (Map.insert m f.msg_id e) f.msg_id
              else Map.insert m f.msg_id e;
        },
        (if is_complete cs e.chunks then some (concat cs) else none),
      )
unfolding finish
finish_delivers m f e cs a t c = ground (arith, join-concat [] cs e.chunks a)

pub met_entry-chunks :
    (r : Reassembler) (f : Frame) (now : ℕ)
    → (met_entry r f now).chunks ≡ pending (prune r now).inflight f.msg_id f.total
unfolding pending drop_resized entry_for
met_entry-chunks r f now = ground (arith, get-remove (prune r now).inflight f.msg_id f.msg_id)

pub get-met_map :
    (r : Reassembler) (f : Frame) (now j : ℕ)
    → j ≢ f.msg_id
    → Map.get (met_map r f now) j ≡ Map.get (prune r now).inflight j
unfolding drop_resized
get-met_map r f now j h = ground (arith, get-remove (prune r now).inflight f.msg_id j)

pub set_once_taken :
    (os : List (Option (List ℕ))) (i : ℕ) (c d : List ℕ)
    → get_elem? os i ≡ some (some d)
    → set_once os i c ≡ os
unfolding set_once
set_once_taken os i c d h = rw (h, set_once)

pub set_once_free :
    (os : List (Option (List ℕ))) (i : ℕ) (c : List ℕ)
    → get_elem? os i ≡ some none
    → set_once os i c ≡ set os i (some c)
unfolding set_once
set_once_free os i c h = rw (h, set_once)

pub Agrees-set_once :
    (cs : List (List ℕ)) (os : List (Option (List ℕ))) (i : ℕ) (c : List ℕ)
    → get_elem? cs i ≡ some c
    → Agrees cs os
    → Agrees cs (set_once os i c)
unfolding set_once
Agrees-set_once cs os i c e h = elim (get_elem? os i) as (λ o. Agrees cs (pick o)) [
  | none ↦ h
  | some none ↦ Agrees-set cs os i c e h
  | some (some d) ↦ h
]
  where
    pick : Option (Option (List ℕ)) → List (Option (List ℕ))
    pick o = elim o [ none ↦ os | some none ↦ set os i (some c) | some (some d) ↦ os ]
