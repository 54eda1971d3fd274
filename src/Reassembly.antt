-- ===== src/Reassembly.antt =====
-- clients/rust/src/core/reassembly.rs: putting chunked messages together again, by message id.
-- A clock reading is a whole number of milliseconds: the code only asks whether the difference of
-- two readings is at most 30 seconds, and a clock that runs back gives a difference below 0, which
-- passes that test as the 0 of the model does. The warnings are not modelled.
pub mod Counters
pub mod Invariant
pub mod Slots
pub mod Delivery
pub mod Watching
pub mod Feed
mod Examples
use lobbylink.Base.{
  ℕ, suc, ◌+◌, ◌-◌, Bool, true, false, List, [], ◌∷◌, ◌++◌, Option, none, some, ltb, leb, ◌==◌,
  if◌then◌else◌, not, length, set, replicate, is_some,
}
use lobbylink.Base.Map
use lobbylink.Base.Map.{HashMap}
use lobbylink.Base.Outcome.{Outcome, ok, panic, ◌>>=◌, index, expect}
use lobbylink.Framing.{Frame, max_reliable_message}

abbrev pub reassembly_timeout_ms : ℕ
reassembly_timeout_ms = 30_000

pub record Entry : Type 0 where
  pub total : ℕ
  pub chunks : List (Option (List ℕ))
  pub received : ℕ
  pub bytes : ℕ
  pub started_at_ms : ℕ

pub record Reassembler : Type 0 where
  pub inflight : HashMap Entry

abbrev pub new : Reassembler
new = record { inflight = [] }

-- `now_ms - entry.started_at_ms <= REASSEMBLY_TIMEOUT_MS`
abbrev pub keep : ℕ → Entry → Bool
keep now_ms entry = leb (now_ms - entry.started_at_ms) reassembly_timeout_ms

unfoldable pub prune : Reassembler → ℕ → Reassembler
prune r now_ms = record { inflight = Map.retain (keep now_ms) r.inflight }

-- A message id that comes back with another chunk count is a new message.
unfoldable pub drop_resized : HashMap Entry → Frame → HashMap Entry
drop_resized m frame = elim (Map.get m frame.msg_id) [
  | none ↦ m
  | some entry ↦ if not (entry.total == frame.total) then Map.remove m frame.msg_id else m
]

abbrev pub fresh_entry : Frame → ℕ → Entry
fresh_entry frame now_ms = record {
  total = frame.total;
  chunks = replicate frame.total none;
  received = 0;
  bytes = 0;
  started_at_ms = now_ms;
}

-- `inflight.entry(id).or_insert_with(…)`, the entry that it gives.
unfoldable pub entry_for : HashMap Entry → Frame → ℕ → Entry
entry_for m frame now_ms = elim (Map.get m frame.msg_id) [
  | none ↦ fresh_entry frame now_ms
  | some entry ↦ entry
]

-- `*slot = Some(payload)` with the counters.
abbrev pub fill : Entry → Frame → Entry
fill entry frame = record entry {
  chunks = set entry.chunks frame.seq (some frame.payload);
  received = entry.received + 1;
  bytes = entry.bytes + length frame.payload;
}

-- The loop that joins the chunks; a missing chunk is a panic.
unfoldable pub join : List ℕ → List (Option (List ℕ)) → Outcome ⊥ (List ℕ)
join out [] = ok out
join out (none ∷ chunks) = panic
join out (some chunk ∷ chunks) = join (out ++ chunk) chunks

-- The end of `push`: the message, if its last chunk has come. `m` holds the entry.
unfoldable pub finish : HashMap Entry → Frame → Entry → Outcome ⊥ (Reassembler × Option (List ℕ))
finish m frame entry =
    if ltb entry.received entry.total then ok (record { inflight = m }, none) else (do
      out ← join [] entry.chunks
      ok (record { inflight = Map.remove m frame.msg_id }, some out))

-- The middle of `push`, on what the slot of the frame holds.
unfoldable pub store :
    HashMap Entry → Frame → Entry → Option (List ℕ) → Outcome ⊥ (Reassembler × Option (List ℕ))
store m frame entry (some _) = finish (Map.insert m frame.msg_id entry) frame entry
store m frame entry none =
    let filled = fill entry frame in
    if ltb max_reliable_message filled.bytes
    then ok (record { inflight = Map.remove m frame.msg_id }, none)
    else finish (Map.insert m frame.msg_id filled) frame filled

unfoldable pub push : Reassembler → Frame → ℕ → Outcome ⊥ (Reassembler × Option (List ℕ))
push r frame now_ms = do
  let m = drop_resized (prune r now_ms).inflight frame
  let entry = entry_for m frame now_ms
  slot ← index entry.chunks frame.seq
  store m frame entry slot

abbrev pub tagged : ℕ → Option (List ℕ) → List (ℕ × List ℕ)
tagged msg_id none = []
tagged msg_id (some message) = (msg_id, message) ∷ []

-- A run of pushes, with the messages that come out, each with its id.
unfoldable pub feed : Reassembler → List (Frame × ℕ) → Outcome ⊥ (Reassembler × List (ℕ × List ℕ))
feed r [] = ok (r, [])
feed r ((frame, now_ms) ∷ rest) = do
  (r', out) ← push r frame now_ms
  (r'', outs) ← feed r' rest
  ok (r'', tagged frame.msg_id out ++ outs)
