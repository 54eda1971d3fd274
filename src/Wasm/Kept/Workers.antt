-- ===== src/Wasm/Kept/Workers.antt =====
-- What the workers and the best-effort sends of clients/rust/src/wasm/link.rs keep.
use lobbylink.Base.{ℕ, zero, suc, List, [], ◌∷◌, Option, none, some, if_both, lookup_cases, ltb}
use lobbylink.Base.Map
use lobbylink.Error.{send_high_water}
use lobbylink.Base.Outcome.{ok, err, panic}
use lobbylink.Wasm.{SendJob, Inner, Web}
use lobbylink.Wasm.Callbacks.{current_link}
use lobbylink.Wasm.Sends.{Result, Sent, wait_link}
use lobbylink.Wasm.Worker.{
  queue_of, set_queue, queue_reliable, told, worker, run_worker, rounds_of, settle, best_effort_to,
}
use lobbylink.Wasm.Kept.{IsKept, SentKept, wait_link_keeps}

-- The state that a worker leaves after the result of a job.
pub round_cases :
    (P : Inner → Type 0) (a : Inner) (result : Option Result) (next : Result → Inner)
    → P a
    → ((r : Result) → P (next r))
    → P (elim result [ none ↦ a | some panic ↦ a | some r ↦ next r ])
round_cases P a none next v q = v
round_cases P a (some panic) next v q = v
round_cases P a (some (ok done)) next v q = q (ok done)
round_cases P a (some (err e)) next v q = q (err e)

pub items_cases :
    (P : Inner → Type 0) (items : List SendJob) (x : Inner) (next : SendJob → List SendJob → Inner)
    → P x
    → ((job : SendJob) (rest : List SendJob) → P (next job rest))
    → P (elim items [ [] ↦ x | job ∷ rest ↦ next job rest ])
items_cases P [] x next v q = v
items_cases P (job ∷ rest) x next v q = q job rest

module _ (P : Inner → Type 0) (k : IsKept P) where
  worker_keeps : (n : ℕ) (a : Inner) (web : Web) (to : ℕ) → P a → P (worker n a web to)
  unfolding worker
  worker_keeps zero a web to v = v
  worker_keeps (suc n) a web to v =
      lookup_cases P (Map.get a.send_queues to) _ _ (λ _. v)
        (λ queue _. items_cases P queue.items _ _ (k.queued a to _ v) (λ job items.
          let taken : Inner = set_queue a to (record { items = items; running = queue.running }) in
          let v' = wait_link_keeps P k.sending taken web to job (k.queued a to _ v) in
          round_cases P _ (wait_link taken web to job).1
            (λ r. worker n (told (wait_link taken web to job).0 job r) web to) v'
            (λ r.
              worker_keeps n (told (wait_link taken web to job).0 job r) web to
                (k.replied _ job r v'))))

  pub run_worker_keeps : (a : Inner) (web : Web) (to : ℕ) → P a → P (run_worker a web to)
  unfolding run_worker
  run_worker_keeps a web to v = worker_keeps (rounds_of a to) a web to v

  pub settle_keeps :
      (web : Web) (to : ℕ) (job : SendJob) (r : Sent) → SentKept P r → P (settle web to job r)
  unfolding settle
  settle_keeps web to job (a, none) v = v
  settle_keeps web to job (a, some (ok done)) v =
      run_worker_keeps _ web to (k.replied a job (ok done) v)
  settle_keeps web to job (a, some (err e)) v =
      run_worker_keeps _ web to (k.replied a job (err e) v)
  settle_keeps web to job (a, some panic) v = v

  pub queue_reliable_keeps :
      (a : Inner) (to : ℕ) (job : SendJob) → P a → P (queue_reliable a to job)
  unfolding queue_reliable
  queue_reliable_keeps a to job v =
      let queued = k.queued a to _ v in
      if_both P (queue_of (Map.get a.send_queues to)).running _ _ queued (k.started _ to queued)

  pub best_effort_to_keeps :
      (a : Inner) (web : Web) (to : ℕ) (bytes : List ℕ) → P a → P (best_effort_to a web to bytes)
  unfolding best_effort_to
  best_effort_to_keeps a web to bytes v =
      lookup_cases P (current_link a to) _ _ (λ _. v)
        (λ l _. if_both P _ _ _ v (
          if_both P (ltb send_high_water (web.best_effort_buffered l.epoch)) _ _ v
            (k.thrown a l.epoch bytes v)))
