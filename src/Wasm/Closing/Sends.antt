-- ===== src/Wasm/Closing/Sends.antt =====
-- The sends of clients/rust/src/wasm after the game is closed.
use lobbylink.Base.{
  ℕ, zero, suc, true, false, List, Option, none, some, lookup_cases, arith, if_cases,
}
use lobbylink.Base.Map
use lobbylink.Base.Outcome.{ok, err, panic}
use lobbylink.Wasm.{
  SendJob, Sending, Mail, opened, drained, dropped, Output, Inner, Web, set_link, is_closed,
}
use lobbylink.Wasm.Sends.{
  Sent, Turn, go, wait, stop, first_turn, drain_turn, send_from, start_message, next_id, wait_open,
  open_known, wait_link, link_known,
}
use lobbylink.Wasm.Worker.{set_queue, told, rounds_of, worker, run_worker, settle}
use lobbylink.Wasm.Kept.Workers.{items_cases, round_cases}
use lobbylink.Wasm.Closing.{IsShut, relink-IsShut, is_closed-shut, told-IsShut}

-- A send that is not to go on.
abbrev IsStop : Turn → Type 0
IsStop (stop e) = Unit
IsStop _ = ⊥

abbrev SentOf : List Output → Sent → Type 0
SentOf effects r = IsShut effects r.0

module _ {effects : List Output} where
  stopped_send :
      (a : Inner) (web : Web) (s : Sending) (turn : Turn) (left seq : ℕ)
      → IsStop turn
      → IsShut effects a
      → SentOf effects (send_from a web s turn left seq)
  unfolding send_from
  stopped_send a web s turn zero seq h v = v
  stopped_send a web s (stop e) (suc left) seq h v = v
  stopped_send a web s go (suc left) seq h v = absurd h
  stopped_send a web s wait (suc left) seq h v = absurd h

  first_turn-IsStop :
      (a : Inner) (web : Web) (s : Sending) (seq : ℕ)
      → IsShut effects a
      → IsStop (first_turn a web s seq)
  unfolding first_turn
  first_turn-IsStop a web s seq v =
      if_cases IsStop (is_closed a s.epoch) _ _ (λ _. tt)
        (λ h. absurd (ground (arith, h, is_closed-shut a s.epoch v)))

  drain_turn-IsStop :
      (a : Inner) (web : Web) (s : Sending) (seq : ℕ)
      → IsShut effects a
      → IsStop (drain_turn a web s seq)
  unfolding drain_turn
  drain_turn-IsStop a web s seq v =
      if_cases IsStop (is_closed a s.epoch) _ _ (λ _. tt)
        (λ h. absurd (ground (arith, h, is_closed-shut a s.epoch v)))

  pub drained_send-IsShut :
      (a : Inner) (web : Web) (s : Sending)
      → IsShut effects a
      → SentOf effects (send_from a web s (drain_turn a web s s.seq) s.left s.seq)
  drained_send-IsShut a web s v =
      stopped_send a web s _ s.left s.seq (drain_turn-IsStop a web s s.seq v) v

  start_message-IsShut :
      (a : Inner) (web : Web) (to : ℕ) (job : SendJob) (e : ℕ)
      → IsShut effects a
      → SentOf effects (start_message a web to job e)
  unfolding start_message
  start_message-IsShut a web to job e v =
      lookup_cases (SentOf effects) (Map.get a.links e) _ _ (λ _. v)
        (λ l there.
          let v' = relink-IsShut a e (next_id l) (v.links_shut e l there) v in
          stopped_send (set_link a e (next_id l)) web _ _ _ 0
            (first_turn-IsStop (set_link a e (next_id l)) web _ 0 v') v')

  wait_open-IsShut :
      (a : Inner) (web : Web) (to : ℕ) (job : SendJob) (e : ℕ)
      → IsShut effects a
      → SentOf effects (wait_open a web to job e)
  unfolding wait_open
  wait_open-IsShut a web to job e v =
      lookup_cases (SentOf effects) (Map.get a.links e) _ _ (λ _. v)
        (λ l there.
          if_cases (SentOf effects) l.closed _ _ (λ _. v)
            (λ h. absurd (ground (arith, h, v.links_shut e l there))))

  pub open_known-IsShut :
      (a : Inner) (web : Web) (to : ℕ) (job : SendJob) (e : ℕ) (m : Option Mail)
      → IsShut effects a
      → SentOf effects (open_known a web to job e m)
  unfolding open_known
  open_known-IsShut a web to job e (some (opened true)) v = start_message-IsShut a web to job e v
  open_known-IsShut a web to job e (some (opened false)) v = v
  open_known-IsShut a web to job e (some (Mail.link e')) v = v
  open_known-IsShut a web to job e (some drained) v = v
  open_known-IsShut a web to job e (some dropped) v = v
  open_known-IsShut a web to job e none v = v

  wait_link-IsShut :
      (a : Inner) (web : Web) (to : ℕ) (job : SendJob)
      → IsShut effects a
      → SentOf effects (wait_link a web to job)
  unfolding wait_link
  wait_link-IsShut a web to job v =
      if_cases (SentOf effects) a.closed _ _ (λ _. v) (λ h. absurd (ground (arith, h, v.shut)))

  pub link_known-IsShut :
      (a : Inner) (web : Web) (to : ℕ) (job : SendJob) (m : Option Mail)
      → IsShut effects a
      → SentOf effects (link_known a web to job m)
  unfolding link_known
  link_known-IsShut a web to job (some (Mail.link e)) v = wait_open-IsShut a web to job e v
  link_known-IsShut a web to job (some (opened b)) v = v
  link_known-IsShut a web to job (some drained) v = v
  link_known-IsShut a web to job (some dropped) v = v
  link_known-IsShut a web to job none v = v

  worker-IsShut :
      (n : ℕ) (a : Inner) (web : Web) (to : ℕ)
      → IsShut effects a
      → IsShut effects (worker n a web to)
  unfolding worker
  worker-IsShut zero a web to v = v
  worker-IsShut (suc n) a web to v =
      lookup_cases (IsShut effects) (Map.get a.send_queues to) _ _ (λ _. v)
        (λ queue _. items_cases (IsShut effects) queue.items _ _ v (λ job items.
          let taken : Inner = set_queue a to (record { items = items; running = queue.running }) in
          round_cases (IsShut effects) _ (wait_link taken web to job).1
            (λ r. worker n (told (wait_link taken web to job).0 job r) web to)
            (wait_link-IsShut taken web to job v)
            (λ r. worker-IsShut n (told (wait_link taken web to job).0 job r) web to (
              told-IsShut (wait_link taken web to job).0 job r
                (wait_link-IsShut taken web to job v)))))

  pub run_worker-IsShut :
      (a : Inner) (web : Web) (to : ℕ) → IsShut effects a → IsShut effects (run_worker a web to)
  unfolding run_worker
  run_worker-IsShut a web to v = worker-IsShut (rounds_of a to) a web to v

  pub settle-IsShut :
      (web : Web) (to : ℕ) (job : SendJob) (r : Sent)
      → SentOf effects r
      → IsShut effects (settle web to job r)
  unfolding settle
  settle-IsShut web to job (a, none) v = v
  settle-IsShut web to job (a, some (ok done)) v =
      run_worker-IsShut _ web to (told-IsShut a job (ok done) v)
  settle-IsShut web to job (a, some (err e)) v =
      run_worker-IsShut _ web to (told-IsShut a job (err e) v)
  settle-IsShut web to job (a, some panic) v = v
