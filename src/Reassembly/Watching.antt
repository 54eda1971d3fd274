-- ===== src/Reassembly/Watching.antt =====
-- One message among the frames of others, as the pushes go by.
use mathlib.Core.Path.{subst}
use lobbylink.Base.{
  if_both, sym, ap, ◌≢◌, inl, inr, Option-cases, ℕ, ◌+◌, ◌≤◌, ◌≡◌, refl, ◌∙◌, List, [], ◌∷◌, Option,
  none, some, ◌==◌, if◌then◌else◌, length, get_elem?, replicate, arith,
}
use lobbylink.Base.Map
use lobbylink.Base.Map.{get-remove, HashMap, get-retain, kept}
use lobbylink.Base.Outcome.{ok}
use lobbylink.Framing.{max_reliable_message, Frame}
use lobbylink.Framing.Sound.{IsAcceptable}
use lobbylink.Reassembly.{
  entry_for, push, drop_resized, Entry, Reassembler, keep, prune, reassembly_timeout_ms,
}
use lobbylink.Reassembly.Invariant.{met_entry, push-IsValid}
use lobbylink.Reassembly.Counters.{IsValid}
use lobbylink.Reassembly.Delivery.{push-others, slots_after, push-Pushed}
use lobbylink.Reassembly.Slots.{
  Agrees-replicate, Agrees-set_once, concat, Agrees, pending, set_once, is_complete,
}

-- The message that is watched: its id, its chunks, and the start of the 30 seconds in which its
-- frames come.
pub record Message : Type 0 where
  pub id : ℕ
  pub chunks : List (List ℕ)
  pub from : ℕ

-- An arrival within the 30 seconds: any acceptable frame of another message, or one of this.
pub record IsArrival (m : Message) (a : Frame × ℕ) : Type 0 where
  pub acceptable : IsAcceptable a.0
  pub after : m.from ≤ a.1
  pub before : a.1 ≤ m.from + reassembly_timeout_ms
  pub own :
      a.0.msg_id ≡ m.id
      → (a.0.total ≡ length m.chunks) × (get_elem? m.chunks a.0.seq ≡ some a.0.payload)

-- What should come out for the message, from the slots filled so far: each time the last empty
-- slot is filled the message, and the slots are empty again.
unfoldable pub expected : Message → List (Option (List ℕ)) → List (Frame × ℕ) → List (List ℕ)
expected m os [] = []
expected m os ((f, now) ∷ rest) =
    let os' = set_once os f.seq f.payload in
    let skip = expected m os rest in
    let more = expected m os' rest in
    let again = expected m (replicate (length m.chunks) none) rest in
    if f.msg_id == m.id
    then if is_complete m.chunks os' then concat m.chunks ∷ again else more
    else skip

-- The messages of one id, of those that came out.
unfoldable pub of_id : ℕ → List (ℕ × List ℕ) → List (List ℕ)
of_id k [] = []
of_id k ((j, message) ∷ outs) = let rest = of_id k outs in if j == k then message ∷ rest else rest

-- The slots of the watched message, and that its entry, if there is one, began in the window.
pub record Watches (m : Message) (os : List (Option (List ℕ))) (r : Reassembler) : Type 0 where
  pub valid : IsValid r
  pub slots : pending r.inflight m.id (length m.chunks) ≡ os
  pub agrees : Agrees m.chunks os
  pub started : (e : Entry) → Map.get r.inflight m.id ≡ some e → m.from ≤ e.started_at_ms

-- In the window, pruning does not touch the watched message.
get-prune_watched :
    (m : Message) (r : Reassembler) (now : ℕ)
    → IsValid r
    → now ≤ m.from + reassembly_timeout_ms
    → ((e : Entry) → Map.get r.inflight m.id ≡ some e → m.from ≤ e.started_at_ms)
    → Map.get (prune r now).inflight m.id ≡ Map.get r.inflight m.id
unfolding prune
get-prune_watched m r now v h s =
    get-retain (keep now) r.inflight m.id v.distinct ∙ fits (Map.get r.inflight m.id) s
  where
    fits :
        (o : Option Entry)
        → ((e : Entry) → o ≡ some e → m.from ≤ e.started_at_ms)
        → kept (keep now) o ≡ o
    fits none s = refl
    fits (some e) s = ground (arith, s e refl)

pending-prune_watched :
    (m : Message) (r : Reassembler) (now : ℕ) (os : List (Option (List ℕ)))
    → Watches m os r
    → now ≤ m.from + reassembly_timeout_ms
    → pending (prune r now).inflight m.id (length m.chunks) ≡ os
unfolding pending
pending-prune_watched m r now os w h =
    ground (arith, get-prune_watched m r now w.valid h w.started, w.slots)

-- The entry that a frame of the watched message meets began in the window.
met_entry-started :
    (m : Message) (r : Reassembler) (f : Frame) (now : ℕ) (os : List (Option (List ℕ)))
    → Watches m os r
    → IsArrival m (f, now)
    → f.msg_id ≡ m.id
    → m.from ≤ (met_entry r f now).started_at_ms
unfolding drop_resized entry_for
met_entry-started m r f now os w a own =
    met (Map.get (prune r now).inflight f.msg_id) (
      ap (Map.get (prune r now).inflight) own
      ∙ get-prune_watched m r now w.valid a.before w.started)
  where
    met :
        (o : Option Entry)
        → Map.get (prune r now).inflight f.msg_id ≡ Map.get r.inflight m.id
        → m.from ≤ (met_entry r f now).started_at_ms
    met o e = elim (Option-cases (Map.get r.inflight m.id)) [
      | inl unborn ↦
          ground (arith, get-remove (prune r now).inflight f.msg_id f.msg_id, e, unborn, a.after)
      | inr (x, old) ↦ ground (
        arith,
        get-remove (prune r now).inflight f.msg_id f.msg_id,
        e,
        old,
        a.after,
        w.started x old,
      )
    ]

pub step_own :
    (m : Message) (r : Reassembler) (f : Frame) (now : ℕ) (os : List (Option (List ℕ)))
    → length (concat m.chunks) ≤ max_reliable_message
    → Watches m os r
    → IsArrival m (f, now)
    → f.msg_id ≡ m.id
    → let os' = set_once os f.seq f.payload in
      (r' : Reassembler) × (out : Option (List ℕ)) × (push r f now ≡ ok (r', out))
      × (out ≡ (if is_complete m.chunks os' then some (concat m.chunks) else none))
      × Watches m (if is_complete m.chunks os' then replicate (length m.chunks) none else os') r'
step_own m r f now os fits w a own =
    let (r', out, ran, pushed, valid) =
      push-Pushed m.chunks r f now w.valid a.acceptable total chunk fits
        (subst (Agrees m.chunks) (sym met) w.agrees) in
    (
      r',
      out,
      ran,
      subst (λ x. out ≡ (if is_complete m.chunks x then some (concat m.chunks) else none)) filled
          pushed.result,
      record {
        valid = valid;
        slots =
            ap (λ k. pending r'.inflight k (length m.chunks)) (sym own)
            ∙ pushed.slots
            ∙ ap (λ x. if is_complete m.chunks x then replicate (length m.chunks) none else x)
                filled;
        agrees =
            if_both (Agrees m.chunks) (is_complete m.chunks (set_once os f.seq f.payload)) _ _
              (Agrees-replicate m.chunks)
              (Agrees-set_once m.chunks os f.seq f.payload chunk w.agrees);
        started = λ e h. omega (
          arith,
          pushed.started e (ap (Map.get r'.inflight) own ∙ h),
          met_entry-started m r f now os w a own,
        );
      },
    )
  where
    total : f.total ≡ length m.chunks
    total = (a.own own).0

    chunk : get_elem? m.chunks f.seq ≡ some f.payload
    chunk = (a.own own).1

    met : pending (prune r now).inflight f.msg_id f.total ≡ os
    met =
        ap (λ k. pending (prune r now).inflight k f.total) own
        ∙ ap (pending (prune r now).inflight m.id) total
        ∙ pending-prune_watched m r now os w a.before

    filled : slots_after r f now ≡ set_once os f.seq f.payload
    filled = ap (λ x. set_once x f.seq f.payload) met

pub step_other :
    (m : Message) (r : Reassembler) (f : Frame) (now : ℕ) (os : List (Option (List ℕ)))
    → Watches m os r
    → IsArrival m (f, now)
    → f.msg_id ≢ m.id
    → (r' : Reassembler) × (out : Option (List ℕ)) × (push r f now ≡ ok (r', out)) × Watches m os r'
unfolding pending
step_other m r f now os w a other =
    let (r', out, ran, valid) = push-IsValid r f now w.valid a.acceptable in
    let same : Map.get r'.inflight m.id ≡ Map.get r.inflight m.id =
      push-others r f now m.id r' out (λ e. other (sym e)) ran
      ∙ get-prune_watched m r now w.valid a.before w.started in
    (
      r',
      out,
      ran,
      record {
        valid = valid;
        slots = ground (arith, same, w.slots);
        agrees = w.agrees;
        started = λ e h. w.started e (sym same ∙ h);
      },
    )
