-- ===== src/Wasm/Closing.antt =====
-- The game of clients/rust/src/wasm after it is closed.
pub mod Sends
pub mod Handlers
pub mod Steps
use lobbylink.Base.{
  ℕ, zero, suc, ◌≡◌, refl, Bool, true, false, List, [], ◌∷◌, Option, none, some, lookup_cases,
  arith, if_both, if_cases, Option-cases, not, ◌||◌, ◌==◌, Text, inl, inr, if◌then◌else◌,
}
use lobbylink.Base.Map
use lobbylink.Base.Map.{HashMap, get-insert_inv}
use lobbylink.Base.Outcome.{Outcome, ok, err, panic}
use lobbylink.Error.{LobbyError}
use lobbylink.Protocol.{SignalPayload, offer}
use lobbylink.Protocol.Values.{Json}
use lobbylink.Wasm.{
  Link, SendJob, Sending, Mail, opened, drained, dropped, Task, Output, remote_set, add_candidate,
  reply, After, done, create_answer, Inner, Web, put, spawn, set_link, is_closed, answer_created,
}
use lobbylink.Wasm.Signals.{
  go_on, flush_list, flush_link, flush_candidates, with_pending, offer_made, send_local, send_offer,
  offer_taken, answer_made, answer_taken, handle_signal,
}
use lobbylink.Wasm.Sends.{
  Sent, Result, Turn, go, wait, stop, first_turn, drain_turn, send_from, start_message, next_id,
  wait_open, open_known, wait_link, link_known,
}
use lobbylink.Wasm.Worker.{set_queue, told, worker, run_worker, settle}

-- What somebody else can see: all but the answers to the callers and the calls on a connection that
-- is closed.
unfoldable pub is_shown : Output → Bool
is_shown (remote_set e) = false
is_shown (add_candidate e c) = false
is_shown (reply caller r) = false
is_shown o = true

unfoldable pub shown : List Output → List Output
shown [] = []
shown (o ∷ log) = let rest = shown log in if is_shown o then o ∷ rest else rest

-- The game is closed, with all its links, and these were its effects.
pub record IsShutOf (effects : List Output) (closed : Bool) (links : HashMap Link)
    (log : List Output) : Type 0 where
  pub shut : closed ≡ true
  pub links_shut : (e : ℕ) (l : Link) → Map.get links e ≡ some l → l.closed ≡ true
  pub same : shown log ≡ effects

abbrev pub IsShut : List Output → Inner → Type 0
IsShut effects a = IsShutOf effects a.closed a.links a.log

module _ {effects : List Output} where
  pub unseen-IsShut :
      (a : Inner) (o : Output) → is_shown o ≡ false → IsShut effects a → IsShut effects (put a o)
  unfolding shown
  unseen-IsShut a o h v = record {
    shut = v.shut;
    links_shut = v.links_shut;
    same = ground (arith, h, v.same);
  }

  pub relink-IsShut :
      (a : Inner) (e : ℕ) (l : Link)
      → l.closed ≡ true
      → IsShut effects a
      → IsShut effects (set_link a e l)
  relink-IsShut a e l h v = record {
    shut = v.shut;
    links_shut = λ i m there. elim (get-insert_inv a.links e i l m there) [
      | inl (here, changed) ↦ ground arith
      | inr (elsewhere, there') ↦ v.links_shut i m there'
    ];
    same = v.same;
  }

  is_closed-shut : (a : Inner) (e : ℕ) → IsShut effects a → is_closed a e ≡ true
  is_closed-shut a e v = elim (Option-cases (Map.get a.links e)) [
    | inl out ↦ ground (arith, out)
    | inr (l, there) ↦ ground (arith, there, v.links_shut e l there)
  ]

  -- What stops at a closed link changes nothing.
  stopped :
      (a : Inner) (e : ℕ) (b : Bool) (x : Inner)
      → IsShut effects a
      → IsShut effects (if b || is_closed a e then a else x)
  stopped a e b x v =
      if_cases (IsShut effects) (b || is_closed a e) a x (λ _. v)
        (λ h. absurd (ground (arith, h, is_closed-shut a e v)))

  go_on-IsShut :
      (a : Inner) (e : ℕ) (after : After) → IsShut effects a → IsShut effects (go_on a e after)
  unfolding go_on
  go_on-IsShut a e done v = v
  go_on-IsShut a e (create_answer from) v = v

  pub flush_list-IsShut :
      (a : Inner) (web : Web) (e : ℕ) (cs : List Json) (after : After)
      → IsShut effects a
      → IsShut effects (flush_list a web e cs after)
  unfolding flush_list is_shown
  flush_list-IsShut a web e [] after v = go_on-IsShut a e after v
  flush_list-IsShut a web e (c ∷ cs) after v =
      if_both (IsShut effects) (web.candidate_ok c) _ _ (unseen-IsShut a (add_candidate e c) refl v)
        (flush_list-IsShut a web e cs after v)

  flush_candidates-IsShut :
      (a : Inner) (web : Web) (e : ℕ) (after : After)
      → IsShut effects a
      → IsShut effects (flush_candidates a web e after)
  unfolding flush_candidates flush_link
  flush_candidates-IsShut a web e after v =
      lookup_cases (IsShut effects) (Map.get a.links e) _ _ (λ _. v)
        (λ l there.
          lookup_cases (IsShut effects) l.pending_candidates _ _ (λ _. go_on-IsShut a e after v)
            (λ pending _.
              flush_list-IsShut (set_link a e (with_pending l none)) web e pending after
                (relink-IsShut a e (with_pending l none) (v.links_shut e l there) v)))

  described_unseen : (a : Inner) (e : ℕ) → IsShut effects a → IsShut effects (put a (remote_set e))
  unfolding is_shown
  described_unseen a e v = unseen-IsShut a (remote_set e) refl v

  pub told-IsShut :
      (a : Inner) (job : SendJob) (r : Result) → IsShut effects a → IsShut effects (told a job r)
  unfolding is_shown
  told-IsShut a job r v = unseen-IsShut a (reply job.done r) refl v

  pub offer_made-IsShut :
      (a : Inner) (web : Web) (e : ℕ) → IsShut effects a → IsShut effects (offer_made a web e)
  unfolding offer_made
  offer_made-IsShut a web e v = stopped a e (not web.fulfilled) _ v

  pub send_local-IsShut :
      (a : Inner) (web : Web) (e to : ℕ) (payload : Text → SignalPayload)
      → IsShut effects a
      → IsShut effects (send_local a web e to payload)
  unfolding send_local
  send_local-IsShut a web e to payload v = stopped a e (not web.fulfilled) _ v

  pub send_offer-IsShut :
      (a : Inner) (web : Web) (e : ℕ) → IsShut effects a → IsShut effects (send_offer a web e)
  unfolding send_offer
  send_offer-IsShut a web e v =
      lookup_cases (IsShut effects) (Map.get a.links e) _ _ (λ _. v)
        (λ l _. send_local-IsShut a web e l.player_id offer v)

  pub offer_taken-IsShut :
      (a : Inner) (web : Web) (e from : ℕ)
      → IsShut effects a
      → IsShut effects (offer_taken a web e from)
  unfolding offer_taken
  offer_taken-IsShut a web e from v = if_both (IsShut effects) (not web.fulfilled) _ _ v (
      if_both (IsShut effects) (is_closed a e) _ _ (described_unseen a e v) (
        flush_candidates-IsShut (put a (remote_set e)) web e (create_answer from)
          (described_unseen a e v)))

  pub answer_made-IsShut :
      (a : Inner) (web : Web) (e from : ℕ)
      → IsShut effects a
      → IsShut effects (answer_made a web e from)
  unfolding answer_made
  answer_made-IsShut a web e from v = stopped a e (not web.fulfilled) _ v

  pub answer_taken-IsShut :
      (a : Inner) (web : Web) (e : ℕ) → IsShut effects a → IsShut effects (answer_taken a web e)
  unfolding answer_taken
  answer_taken-IsShut a web e v =
      if_both (IsShut effects) (not web.fulfilled) _ _ v
        (flush_candidates-IsShut (put a (remote_set e)) web e done (described_unseen a e v))

  pub handle_signal-IsShut :
      (a : Inner) (web : Web) (from : ℕ) (payload : SignalPayload)
      → IsShut effects a
      → IsShut effects (handle_signal a web from payload)
  unfolding handle_signal
  handle_signal-IsShut a web from payload v =
      if_cases (IsShut effects) (a.closed || from == a.self_id) _ _ (λ _. v)
        (λ h. absurd (ground (arith, h, v.shut)))
