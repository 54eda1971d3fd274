-- ===== src/Wasm/Rounds.antt =====
-- The loop of `send_worker` in clients/rust/src/wasm/link.rs ends.
use lobbylink.Base.{
  ℕ, zero, suc, ◌<◌, ◌≡◌, refl, List, [], ◌∷◌, Option, none, some, lookup_cases, length, arith, ap,
  ◌∙◌, sym,
}
use lobbylink.Base.Map
use lobbylink.Base.Map.{HashMap, get-insert}
use lobbylink.Base.Outcome.{ok, err, panic}
use lobbylink.Wasm.{SendJob, SendQueue, Inner, Web}
use lobbylink.Wasm.Sends.{Result, wait_link, await_drain, await_open, await_link}
use lobbylink.Wasm.Worker.{queue_of, set_queue, told, worker, rounds_of, run_worker}
use lobbylink.Wasm.Kept.{IsSendKept, wait_link_keeps}

-- A send leaves the queues alone.
queues-IsSendKept : (queues : HashMap SendQueue) → IsSendKept (λ a. a.send_queues ≡ queues)
unfolding await_drain await_open await_link
queues-IsSendKept queues = record {
  sent = λ a e frame v. v;
  numbered = λ a e l there v. v;
  drains = λ a s left seq v.
      lookup_cases (λ (b : Inner). b.send_queues ≡ queues) (Map.get a.links s.epoch) _ _ (λ _. v)
        (λ l there. v);
  opens = λ a to job e l there v. v;
  links = λ a to job v. v;
}

lookup_same :
    (o : Option SendQueue) (x : Inner) (f g : SendQueue → Inner)
    → ((q : SendQueue) → o ≡ some q → f q ≡ g q)
    → elim o [ none ↦ x | some q ↦ f q ] ≡ elim o [ none ↦ x | some q ↦ g q ]
lookup_same none x f g h = refl
lookup_same (some q) x f g h = h q refl

items_same :
    (items : List SendJob) (x : Inner) (f g : SendJob → List SendJob → Inner)
    → ((job : SendJob) (rest : List SendJob) → items ≡ job ∷ rest → f job rest ≡ g job rest)
    → elim items [ [] ↦ x | job ∷ rest ↦ f job rest ]
      ≡ elim items [ [] ↦ x | job ∷ rest ↦ g job rest ]
items_same [] x f g h = refl
items_same (job ∷ rest) x f g h = h job rest refl

result_same :
    (a : Inner) (result : Option Result) (f g : Result → Inner)
    → ((r : Result) → f r ≡ g r)
    → elim result [ none ↦ a | some panic ↦ a | some r ↦ f r ]
      ≡ elim result [ none ↦ a | some panic ↦ a | some r ↦ g r ]
result_same a none f g h = refl
result_same a (some panic) f g h = refl
result_same a (some (ok done)) f g h = h (ok done)
result_same a (some (err e)) f g h = h (err e)

-- The jobs that wait in the queue of a player.
abbrev pub waiting : Inner → ℕ → List SendJob
waiting a to = (queue_of (Map.get a.send_queues to)).items

-- After a round the jobs behind the one that was sent are left.
left_waiting :
    (a : Inner) (web : Web) (to : ℕ) (queue : SendQueue) (job : SendJob) (items : List SendJob)
    (r : Result)
    → let taken = set_queue a to (record { items = items; running = queue.running }) in
      waiting (told (wait_link taken web to job).0 job r) to ≡ items
left_waiting a web to queue job items r =
    let queues : HashMap SendQueue =
      Map.insert a.send_queues to (record { items = items; running = queue.running }) in
    let taken : Inner = set_queue a to (record { items = items; running = queue.running }) in
    let same =
      wait_link_keeps (λ b. b.send_queues ≡ queues) (queues-IsSendKept queues) taken web to job
        refl in
    ap (λ qs. (queue_of (Map.get qs to)).items) same
    ∙ ground
        (arith, get-insert a.send_queues to to (record { items = items; running = queue.running }))

worker_same :
    (n n' : ℕ) (a : Inner) (web : Web) (to : ℕ)
    → length (waiting a to) < n
    → length (waiting a to) < n'
    → worker n a web to ≡ worker n' a web to
unfolding worker
worker_same zero n' a web to h h' = absurd (omega (arith, h))
worker_same (suc n) zero a web to h h' = absurd (omega (arith, h'))
worker_same (suc n) (suc n') a web to h h' =
    lookup_same (Map.get a.send_queues to) _ _ _ (λ queue there.
      items_same queue.items _ _ _ (λ job items some_left.
        let taken : Inner = set_queue a to (record { items = items; running = queue.running }) in
        result_same _ (wait_link taken web to job).1 _ _ (λ r.
          let size : suc (length items) ≡ length (waiting a to) =
            sym (ap (λ o. length (queue_of o).items) there ∙ ap length some_left) in
          let rest = left_waiting a web to queue job items r in
          worker_same n n' (told (wait_link taken web to job).0 job r) web to
            (rw rest (omega (arith, size, h))) (rw rest (omega (arith, size, h'))))))

-- The bound on the rounds of a worker never decides: with any bound above the number of jobs in the
-- queue, the worker does the same, up to its next wait or its end.
pub run_worker_bound :
    (n : ℕ) (a : Inner) (web : Web) (to : ℕ)
    → length (waiting a to) < n
    → worker n a web to ≡ run_worker a web to
unfolding run_worker
run_worker_bound n a web to h = worker_same n (rounds_of a to) a web to h (omega arith)
