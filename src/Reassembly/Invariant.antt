-- ===== src/Reassembly/Invariant.antt =====
-- The counters of every unfinished message agree with its chunks, so that `push` never panics.
use lobbylink.Base.{
  ◌∙◌, Bool-cases, ltb, ltb→lt, inl, inr, Option-cases, length-set, lt-get_elem?, ℕ, ◌+◌, ◌≤◌, ◌≡◌,
  ap, List, [], Option, none, some, length, get_elem?, arith,
}
use lobbylink.Base.Map
use lobbylink.Base.Map.{
  HashMap, get-insert, get-remove, get-retain, Distinct, insert-Distinct, remove-Distinct,
  retain-Distinct,
}
use lobbylink.Base.Outcome.{Outcome, ◌>>=◌, index-eq-ok, ok}
use lobbylink.Framing.{Frame, max_reliable_message}
use lobbylink.Framing.Sound.{IsAcceptable}
use lobbylink.Reassembly.{
  entry_for, fill, finish, store, push, Entry, Reassembler, prune, drop_resized,
}
use lobbylink.Reassembly.Counters.{
  IsConsistent, IsValid, present-set, stored_bytes-set, join_total, fresh_entry-IsConsistent,
  prune-IsValid, drop_resized-IsValid, IsStored, remove-IsValid, insert-IsValid,
}

-- `insert` then `remove` is `remove`.
remove-insert-IsValid :
    (m : HashMap Entry) (k : ℕ) (entry : Entry)
    → IsValid (record { inflight = m })
    → IsValid (record { inflight = Map.remove (Map.insert m k entry) k })
remove-insert-IsValid m k entry v = record {
  distinct = remove-Distinct (Map.insert m k entry) k (insert-Distinct m k entry v.distinct);
  entries = λ j e h.
      ground (arith, get-remove (Map.insert m k entry) k j, get-insert m k j entry, v.entries j e);
}

fill-IsStored :
    (e : Entry) (f : Frame)
    → IsConsistent e
    → get_elem? e.chunks f.seq ≡ some none
    → e.bytes + length f.payload ≤ max_reliable_message
    → IsStored (fill e f)
fill-IsStored e f k h fits = record {
  slots = length-set e.chunks f.seq (some f.payload) ∙ k.slots;
  counted = omega (arith, k.counted, present-set e.chunks f.seq f.payload h);
  sized = omega (arith, k.sized, stored_bytes-set e.chunks f.seq f.payload h);
  started = omega (arith, k.unfinished);
  slots_bound = k.slots_bound;
  bytes_bound = fits;
}

abbrev Runs : Outcome ⊥ (Reassembler × Option (List ℕ)) → Type 0
Runs result = (r : Reassembler) × (out : Option (List ℕ)) × (result ≡ ok (r, out)) × IsValid r

finish-Runs :
    (m : HashMap Entry) (f : Frame) (e : Entry)
    → IsValid (record { inflight = m })
    → IsStored e
    → Runs (finish (Map.insert m f.msg_id e) f e)
unfolding finish
finish-Runs m f e v s = elim (Bool-cases (ltb e.received e.total)) [
  | inl more ↦ (
    record { inflight = Map.insert m f.msg_id e },
    none,
    rw more,
    insert-IsValid m f.msg_id e v (record {
      slots = s.slots;
      counted = s.counted;
      sized = s.sized;
      unfinished = ltb→lt _ _ more;
      slots_bound = s.slots_bound;
      bytes_bound = s.bytes_bound;
    }),
  )
  | inr done ↦
      let (message, joined) = join_total [] e.chunks (ground arith) in
      (
        record { inflight = Map.remove (Map.insert m f.msg_id e) f.msg_id },
        some message,
        rw (done, joined),
        remove-insert-IsValid m f.msg_id e v,
      )
]

store-Runs :
    (m : HashMap Entry) (f : Frame) (e : Entry) (slot : Option (List ℕ))
    → IsValid (record { inflight = m })
    → IsConsistent e
    → get_elem? e.chunks f.seq ≡ some slot
    → Runs (store m f e slot)
unfolding store
store-Runs m f e (some c) v k h = finish-Runs m f e v (record {
  slots = k.slots;
  counted = k.counted;
  sized = k.sized;
  started = omega (arith, k.unfinished);
  slots_bound = k.slots_bound;
  bytes_bound = k.bytes_bound;
})
store-Runs m f e none v k h =
    elim (Bool-cases (ltb max_reliable_message (e.bytes + length f.payload))) [
      | inl over ↦
          (record { inflight = Map.remove m f.msg_id }, none, rw over, remove-IsValid m f.msg_id v)
      | inr fits ↦ rw fits (finish-Runs m f (fill e f) v (fill-IsStored e f k h (ground arith)))
    ]

entry_for-IsConsistent :
    (m : HashMap Entry) (f : Frame) (now : ℕ)
    → IsValid (record { inflight = m })
    → IsAcceptable f
    → IsConsistent (entry_for m f now)
unfolding entry_for
entry_for-IsConsistent m f now v a = elim (Option-cases (Map.get m f.msg_id)) [
  | inl none_yet ↦ rw (none_yet, entry_for) (fresh_entry-IsConsistent f now a)
  | inr (e, found) ↦ rw (found, entry_for) (v.entries f.msg_id e found)
]

-- The entry that a frame meets has as many slots as the frame says.
pub entry_for-total :
    (m : HashMap Entry) (f : Frame) (now : ℕ) → (entry_for (drop_resized m f) f now).total ≡ f.total
unfolding entry_for drop_resized
entry_for-total m f now = ground (arith, get-remove m f.msg_id f.msg_id)

-- The map and the entry that a frame meets.
abbrev pub met_map : Reassembler → Frame → ℕ → HashMap Entry
met_map r f now = drop_resized (prune r now).inflight f

abbrev pub met_entry : Reassembler → Frame → ℕ → Entry
met_entry r f now = entry_for (met_map r f now) f now

pub push-eq-store :
    (r : Reassembler) (f : Frame) (now : ℕ) (slot : Option (List ℕ))
    → get_elem? (met_entry r f now).chunks f.seq ≡ some slot
    → push r f now ≡ store (met_map r f now) f (met_entry r f now) slot
unfolding push
push-eq-store r f now slot h =
    ap (λ o. o >>= store (met_map r f now) f (met_entry r f now))
      (index-eq-ok (met_entry r f now).chunks f.seq slot h)

pub met_map-IsValid :
    (r : Reassembler) (f : Frame) (now : ℕ)
    → IsValid r
    → IsValid (record { inflight = met_map r f now })
met_map-IsValid r f now v = drop_resized-IsValid (prune r now) f (prune-IsValid r now v)

pub met_entry-IsConsistent :
    (r : Reassembler) (f : Frame) (now : ℕ)
    → IsValid r
    → IsAcceptable f
    → IsConsistent (met_entry r f now)
met_entry-IsConsistent r f now v a =
    entry_for-IsConsistent (met_map r f now) f now (met_map-IsValid r f now v) a

-- On a well-formed reassembler and a frame that the parser accepts, `push` never panics, and it
-- leaves a well-formed reassembler: counters that agree with the chunks, every entry unfinished,
-- at most 4096 slots and 16 MiB in each.
pub push-IsValid :
    (r : Reassembler) (f : Frame) (now : ℕ)
    → IsValid r
    → IsAcceptable f
    → (r' : Reassembler) × (out : Option (List ℕ)) × (push r f now ≡ ok (r', out)) × IsValid r'
push-IsValid r f now v a =
    let k = met_entry-IsConsistent r f now v a in
    let (slot, found) =
      lt-get_elem? (met_entry r f now).chunks f.seq
        (omega (arith, k.slots, entry_for-total (prune r now).inflight f now, a.seq_lt)) in
    rw (push-eq-store r f now slot found)
      (store-Runs (met_map r f now) f (met_entry r f now) slot (met_map-IsValid r f now v) k found)
