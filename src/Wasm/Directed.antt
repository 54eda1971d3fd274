-- ===== src/Wasm/Directed.antt =====
-- What the tasks, the links and the log of clients/rust/src/wasm say of each other; the children
-- show that each group of functions keeps it.
pub mod Links
pub mod Signals
pub mod Offering
pub mod Lobby
pub mod Handlers
pub mod Sends
use lobbylink.Base.{
  ℕ, ◌≤◌, ◌≡◌, refl, Bool, true, false, List, [], ◌∷◌, ◌++◌, Option, none, some, ltb, ◌==◌, ◌||◌,
  All, All-append, if◌then◌else◌, arith, if_both, inl, inr,
}
use lobbylink.Base.Map
use lobbylink.Base.Map.{HashMap, get-insert, get-insert_inv}
use lobbylink.Events.{Event}
use lobbylink.Protocol.{signal}
use lobbylink.Native.Actor.Invariant.{IsDirected}
use lobbylink.Wasm.{
  Link, Task, Output, Inner, After, done, create_answer, offer_start, offer_created, offer_set,
  offer_applied, answer_created, answer_set, flushing, rebuild_sleep, ws_send, remote_set,
  add_candidate, sleep, event, put, spawn, emit, set_link,
}

-- The link was made to offer.
unfoldable pub initiates : HashMap Link → ℕ → Bool
initiates links epoch = elim (Map.get links epoch) [ none ↦ false | some l ↦ l.initiator ]

-- The remote description of a connection was set.
abbrev sets : Output → ℕ → Bool
sets (remote_set i) epoch = i == epoch
sets _ epoch = false

unfoldable pub described : ℕ → List Output → Bool
described epoch [] = false
described epoch (o ∷ log) = sets o epoch || described epoch log

-- A task that offers has a link that offers, one that answers does so to a lower id, one that passes
-- candidates on has the remote description set, and a rebuild is for a higher id.
abbrev pub IsTask : ℕ → HashMap Link → List Output → Task → Type 0
IsTask self_id links log (offer_start e) = initiates links e ≡ true
IsTask self_id links log (offer_created e) = initiates links e ≡ true
IsTask self_id links log (offer_set e) = initiates links e ≡ true
IsTask self_id links log (offer_applied e from) = ltb from self_id ≡ true
IsTask self_id links log (answer_created e from) = ltb from self_id ≡ true
IsTask self_id links log (answer_set e from) = ltb from self_id ≡ true
IsTask self_id links log (flushing e cs done) = described e log ≡ true
IsTask self_id links log (flushing e cs (create_answer from)) =
    (described e log ≡ true) × (ltb from self_id ≡ true)
IsTask self_id links log (rebuild_sleep k e) = ltb self_id k ≡ true
IsTask self_id links log _ = Unit

-- What may be done after what was done before.
abbrev pub IsAllowed : ℕ → Output → List Output → Type 0
IsAllowed self_id (ws_send (signal to payload)) log = IsDirected self_id to payload
IsAllowed self_id (sleep k e ms) log = (ltb self_id k ≡ true) × (1000 ≤ ms) × (ms ≤ 3000)
IsAllowed self_id (add_candidate e c) log = described e log ≡ true
IsAllowed self_id _ log = Unit

abbrev pub AllAllowed : ℕ → List Output → Type 0
AllAllowed self_id [] = Unit
AllAllowed self_id (o ∷ log) = IsAllowed self_id o log × AllAllowed self_id log

-- A link whose candidates no longer wait has its remote description.
abbrev pub IsFlushed : HashMap Link → List Output → Type 0
IsFlushed links log =
    (e : ℕ) (l : Link)
    → Map.get links e ≡ some l
    → l.pending_candidates ≡ none
    → described e log ≡ true

pub record IsOrderedOf (self_id : ℕ) (links : HashMap Link) (tasks : List Task) (log : List Output)
    : Type 0 where
  pub waiting : All (IsTask self_id links log) tasks
  pub outputs : AllAllowed self_id log
  pub flushed : IsFlushed links log

abbrev pub IsOrdered : Inner → Type 0
IsOrdered a = IsOrderedOf a.self_id a.links a.tasks a.log

pub described_later :
    (epoch : ℕ) (o : Output) (log : List Output)
    → described epoch log ≡ true
    → described epoch (o ∷ log) ≡ true
unfolding described
described_later epoch o log h = ground (arith, h)

task_later :
    (self_id : ℕ) (links links' : HashMap Link) (log log' : List Output) (t : Task)
    → ((e : ℕ) → initiates links e ≡ true → initiates links' e ≡ true)
    → ((e : ℕ) → described e log ≡ true → described e log' ≡ true)
    → IsTask self_id links log t
    → IsTask self_id links' log' t
task_later s links links' log log' (offer_start e) more later p = more e p
task_later s links links' log log' (offer_created e) more later p = more e p
task_later s links links' log log' (offer_set e) more later p = more e p
task_later s links links' log log' (offer_applied e from) more later p = p
task_later s links links' log log' (answer_created e from) more later p = p
task_later s links links' log log' (answer_set e from) more later p = p
task_later s links links' log log' (flushing e cs done) more later p = later e p
task_later s links links' log log' (flushing e cs (create_answer from)) more later p =
    (later e p.0, p.1)
task_later s links links' log log' (rebuild_sleep k e) more later p = p
task_later s links links' log log' _ more later p = tt

All-later {ℓ κ} :
    {A : Type ℓ} (P Q : A → Type κ) (xs : List A) → ((x : A) → P x → Q x) → All P xs → All Q xs
All-later P Q [] h p = tt
All-later P Q (x ∷ xs) h p = (h x p.0, All-later P Q xs h p.1)

pub put-IsOrdered :
    (a : Inner) (o : Output) → IsAllowed a.self_id o a.log → IsOrdered a → IsOrdered (put a o)
put-IsOrdered a o p d = record {
  waiting =
      All-later _ _ a.tasks
        (λ t.
          task_later a.self_id a.links a.links a.log (o ∷ a.log) t (λ e h. h)
            (λ e h. described_later e o a.log h))
        d.waiting;
  outputs = (p, d.outputs);
  flushed = λ e l g n. described_later e o a.log (d.flushed e l g n);
}

pub spawn-IsOrdered :
    (a : Inner) (t : Task) → IsTask a.self_id a.links a.log t → IsOrdered a → IsOrdered (spawn a t)
spawn-IsOrdered a t p d = record {
  waiting = All-append _ a.tasks (t ∷ []) d.waiting (p, tt);
  outputs = d.outputs;
  flushed = d.flushed;
}

-- Other links, of which those that offered still do.
pub relink-IsOrdered :
    (a : Inner) (links : HashMap Link)
    → ((e : ℕ) → initiates a.links e ≡ true → initiates links e ≡ true)
    → IsFlushed links a.log
    → IsOrdered a
    → IsOrdered (record a { links = links })
relink-IsOrdered a links more flushed d = record {
  waiting =
      All-later _ _ a.tasks (λ t. task_later a.self_id a.links links a.log a.log t more (λ e h. h))
        d.waiting;
  outputs = d.outputs;
  flushed = flushed;
}

-- A changed link still offers if it did, and lets candidates through only once it may.
pub set_link-IsOrdered :
    (a : Inner) (e : ℕ) (l l' : Link)
    → Map.get a.links e ≡ some l
    → l'.initiator ≡ l.initiator
    → (l'.pending_candidates ≡ none → described e a.log ≡ true)
    → IsOrdered a
    → IsOrdered (set_link a e l')
unfolding initiates
set_link-IsOrdered a e l l' there same may d =
    relink-IsOrdered a (Map.insert a.links e l') (λ i h. ground (arith, get-insert a.links e i l'))
      (λ i m g n. elim (get-insert_inv a.links e i l' m g) [
        | inl (here, changed) ↦ rw here (may (ground arith))
        | inr (elsewhere, g') ↦ d.flushed i m g' n
      ])
      d

pub emit-IsOrdered : (a : Inner) (e : Event) → IsOrdered a → IsOrdered (emit a e)
unfolding emit
emit-IsOrdered a e d = if_both IsOrdered a.closed _ _ d (put-IsOrdered a (event e) tt d)
