-- ===== src/Reassembly/Delivery.antt =====
-- What one `push` does to the message that its frame belongs to, and to the others.
use mathlib.Core.Path.{subst}
use lobbylink.Base.{
  ◌+◌, le→ltb, lt-get_elem?, ℕ, ◌≤◌, ◌≡◌, ◌≢◌, refl, sym, ap, ◌∙◌, List, Option, none, some, ◌==◌,
  if◌then◌else◌, length, get_elem?, set, replicate, arith,
}
use lobbylink.Base.Map
use lobbylink.Base.Map.{HashMap, get-insert, get-remove}
use lobbylink.Base.Outcome.{◌>>=◌, index-eq-panic, ok-injective, ok}
use lobbylink.Framing.Sound.{IsAcceptable}
use lobbylink.Framing.{max_reliable_message, Frame}
use lobbylink.Reassembly.{store, fill, push, Entry, Reassembler, prune, finish}
use lobbylink.Reassembly.Invariant.{
  push-eq-store, push-IsValid, met_entry-IsConsistent, entry_for-total, met_map, met_entry,
}
use lobbylink.Reassembly.Counters.{
  IsConsistent, IsValid, stored_bytes-set, present-set, present, stored_bytes,
}
use lobbylink.Reassembly.Slots.{
  concat, Agrees, pending, set_once, stored_bytes-le, is_complete, finish_delivers,
  met_entry-chunks, get-met_map, set_once_taken, set_once_free, Agrees-set_once,
}

-- The slots of the frame's message once the frame is in.
abbrev pub slots_after : Reassembler → Frame → ℕ → List (Option (List ℕ))
slots_after r f now = set_once (pending (prune r now).inflight f.msg_id f.total) f.seq f.payload

-- What a push of a frame of message `cs` does.
pub record Pushed (cs : List (List ℕ)) (f : Frame) (now : ℕ) (r r' : Reassembler)
    (out : Option (List ℕ)) : Type 0 where
  pub result : out ≡ (if is_complete cs (slots_after r f now) then some (concat cs) else none)
  pub slots : pending r'.inflight f.msg_id (length cs) ≡ (
      if is_complete cs (slots_after r f now)
      then replicate (length cs) none
      else slots_after r f now)
  pub others : (j : ℕ) → j ≢ f.msg_id → Map.get r'.inflight j ≡ Map.get (prune r now).inflight j
  pub started :
      (e : Entry)
      → Map.get r'.inflight f.msg_id ≡ some e
      → e.started_at_ms ≡ (met_entry r f now).started_at_ms

module _ (cs : List (List ℕ)) (r : Reassembler) (f : Frame) (now : ℕ) (total : f.total ≡ length cs)
    (agrees : Agrees cs (slots_after r f now)) where
  -- The end of a push with the entry `e`, which holds the frame.
  finish-Pushed :
      (e : Entry)
      → e.chunks ≡ slots_after r f now
      → e.total ≡ length cs
      → e.received ≡ present e.chunks
      → e.started_at_ms ≡ (met_entry r f now).started_at_ms
      → (r' : Reassembler) × (out : Option (List ℕ)) × (finish
            (Map.insert (met_map r f now) f.msg_id e)
            f
            e
          ≡ ok (r', out))
        × Pushed cs f now r r' out
  unfolding pending
  finish-Pushed e ec et er es = (
    record {
      inflight =
          if is_complete cs e.chunks
          then Map.remove (Map.insert m f.msg_id e) f.msg_id
          else Map.insert m f.msg_id e;
    },
    (if is_complete cs e.chunks then some (concat cs) else none),
    finish_delivers m f e cs (rw ec agrees) et er,
    record {
      result = rw ec;
      slots = ground (arith, removed f.msg_id, inserted f.msg_id);
      others = λ j h. ground (arith, removed j, inserted j, get-met_map r f now j h);
      started = λ x h. ground (arith, removed f.msg_id, inserted f.msg_id);
    },
  )
    where
      m : HashMap Entry
      m = met_map r f now

      inserted :
          (j : ℕ)
          → Map.get (Map.insert m f.msg_id e) j ≡ (if f.msg_id == j then some e else Map.get m j)
      inserted j = get-insert m f.msg_id j e

      removed :
          (j : ℕ)
          → Map.get (Map.remove (Map.insert m f.msg_id e) f.msg_id) j
            ≡ (if f.msg_id == j then none else Map.get (Map.insert m f.msg_id e) j)
      removed j = get-remove (Map.insert m f.msg_id e) f.msg_id j

  store-Pushed :
      (slot : Option (List ℕ))
      → IsConsistent (met_entry r f now)
      → length (concat cs) ≤ max_reliable_message
      → get_elem? (met_entry r f now).chunks f.seq ≡ some slot
      → (r' : Reassembler) × (out : Option (List ℕ)) × (store
            (met_map r f now)
            f
            (met_entry r f now)
            slot
          ≡ ok (r', out))
        × Pushed cs f now r r' out
  unfolding store
  store-Pushed (some d) k fits h =
      finish-Pushed (met_entry r f now) (kept ∙ ap (λ os. set_once os f.seq f.payload) chunks)
        (entry_for-total (prune r now).inflight f now ∙ total) k.counted refl
    where
      chunks : (met_entry r f now).chunks ≡ pending (prune r now).inflight f.msg_id f.total
      chunks = met_entry-chunks r f now

      kept : (met_entry r f now).chunks ≡ set_once (met_entry r f now).chunks f.seq f.payload
      kept = sym (set_once_taken (met_entry r f now).chunks f.seq f.payload d h)
  store-Pushed none k fits h = rw (le→ltb max_reliable_message (e.bytes + length f.payload) small) (
      finish-Pushed (fill e f) filled (entry_for-total (prune r now).inflight f now ∙ total)
        (omega (arith, k.counted, present-set e.chunks f.seq f.payload h)) refl)
    where
      e : Entry
      e = met_entry r f now

      filled : set e.chunks f.seq (some f.payload) ≡ slots_after r f now
      filled =
          sym (set_once_free e.chunks f.seq f.payload h)
          ∙ ap (λ os. set_once os f.seq f.payload) (met_entry-chunks r f now)

      small : e.bytes + length f.payload ≤ max_reliable_message
      small = omega (
        arith,
        k.sized,
        stored_bytes-set e.chunks f.seq f.payload h,
        ap stored_bytes filled,
        stored_bytes-le cs (slots_after r f now) agrees,
      )

-- A pushed frame of a message of at most 16 MiB takes its slot, unless that is taken; with the
-- last slot the message comes out and its entry goes. Other messages keep what `prune` left them.
pub push-Pushed :
    (cs : List (List ℕ)) (r : Reassembler) (f : Frame) (now : ℕ)
    → IsValid r
    → IsAcceptable f
    → f.total ≡ length cs
    → get_elem? cs f.seq ≡ some f.payload
    → length (concat cs) ≤ max_reliable_message
    → Agrees cs (pending (prune r now).inflight f.msg_id f.total)
    → (r' : Reassembler) × (out : Option (List ℕ)) × (push r f now ≡ ok (r', out))
      × Pushed cs f now r r' out
      × IsValid r'
push-Pushed cs r f now v a total chunk fits agrees =
    let k = met_entry-IsConsistent r f now v a in
    let (slot, found) =
      lt-get_elem? (met_entry r f now).chunks f.seq
        (omega (arith, k.slots, entry_for-total (prune r now).inflight f now, a.seq_lt)) in
    let agrees' = Agrees-set_once cs _ f.seq f.payload chunk agrees in
    let (r', out, ran, pushed) = store-Pushed cs r f now total agrees' slot k fits found in
    let ran' = push-eq-store r f now slot found ∙ ran in
    let (r'', out', again, valid) = push-IsValid r f now v a in
    (
      r',
      out,
      ran',
      pushed,
      subst (λ p. IsValid p.0) (ok-injective (r'', out') (r', out) (sym again ∙ ran')) valid,
    )

finish-others :
    (m : HashMap Entry) (f : Frame) (e : Entry) (j : ℕ) (r' : Reassembler) (out : Option (List ℕ))
    → j ≢ f.msg_id
    → finish (Map.insert m f.msg_id e) f e ≡ ok (r', out)
    → Map.get r'.inflight j ≡ Map.get m j
unfolding finish
finish-others m f e j r' out h eq =
    ground (arith, get-insert m f.msg_id j e, get-remove (Map.insert m f.msg_id e) f.msg_id j)

-- Whatever a frame does, another message keeps what `prune` left it.
pub push-others :
    (r : Reassembler) (f : Frame) (now j : ℕ) (r' : Reassembler) (out : Option (List ℕ))
    → j ≢ f.msg_id
    → push r f now ≡ ok (r', out)
    → Map.get r'.inflight j ≡ Map.get (prune r now).inflight j
unfolding push store
push-others r f now j r' out h eq =
    go (get_elem? (met_entry r f now).chunks f.seq) refl ∙ get-met_map r f now j h
  where
    go :
        (slot : Option (Option (List ℕ)))
        → get_elem? (met_entry r f now).chunks f.seq ≡ slot
        → Map.get r'.inflight j ≡ Map.get (met_map r f now) j
    go none e = cc (
        ap (λ o. o >>= store (met_map r f now) f (met_entry r f now))
          (index-eq-panic (met_entry r f now).chunks f.seq e))
    go (some none) e = ground (
      arith,
      push-eq-store r f now none e,
      get-remove (met_map r f now) f.msg_id j,
      finish-others (met_map r f now) f (fill (met_entry r f now) f) j r' out h,
    )
    go (some (some c)) e =
        finish-others (met_map r f now) f (met_entry r f now) j r' out h
          (sym (push-eq-store r f now (some c) e) ∙ eq)
