-- ===== src/Wasm/Worker.antt =====
-- The send queues of wasm/link.rs: `queue_reliable`, `send_worker` and `best_effort_to`.
use lobbylink.Base.{
  ℕ, zero, suc, Bool, true, false, List, [], ◌∷◌, ◌++◌, Option, none, some, ltb, if◌then◌else◌,
  ◌||◌, not, length,
}
use lobbylink.Base.Map
use lobbylink.Base.Outcome.{ok, err, panic}
use lobbylink.Error.{send_high_water}
use lobbylink.Wasm.{
  SendJob, SendQueue, Inner, Web, ChannelState, open_channel, worker_start, datagram, reply, put,
  spawn,
}
use lobbylink.Wasm.Callbacks.{current_link}
use lobbylink.Wasm.Sends.{Result, Sent, wait_link}

abbrev pub queue_of : Option SendQueue → SendQueue
queue_of none = record { items = []; running = false }
queue_of (some queue) = queue

abbrev pub set_queue : Inner → ℕ → SendQueue → Inner
set_queue a to queue = record a { send_queues = Map.insert a.send_queues to queue }

-- The job goes to the end of the queue, and a worker starts unless one runs.
unfoldable pub queue_reliable : Inner → ℕ → SendJob → Inner
queue_reliable a to job =
    let queue = queue_of (Map.get a.send_queues to) in
    let queued = set_queue a to (record { items = queue.items ++ (job ∷ []); running = true }) in
    if queue.running then queued else spawn queued (worker_start to)

-- What a job has come to is told to its caller.
abbrev pub told : Inner → SendJob → Result → Inner
told a job result = put a (reply job.done result)

-- The loop of `send_worker` from its head up to an `await`, with a bound on its rounds.
unfoldable pub worker : ℕ → Inner → Web → ℕ → Inner
worker zero a web to = a
worker (suc rounds) a web to = elim (Map.get a.send_queues to) [
  | none ↦ a
  | some queue ↦ elim queue.items [
    | [] ↦ set_queue a to (record { items = []; running = false })
    | job ∷ items ↦
        let (a', result) =
          wait_link (set_queue a to (record { items = items; running = queue.running })) web to
            job in
        elim result [ none ↦ a' | some panic ↦ a' | some r ↦ worker rounds (told a' job r) web to ]
  ]
]

-- Each round takes a job off the queue, and nothing is queued meanwhile.
abbrev pub rounds_of : Inner → ℕ → ℕ
rounds_of a to = suc (length (queue_of (Map.get a.send_queues to)).items)

unfoldable pub run_worker : Inner → Web → ℕ → Inner
run_worker a web to = worker (rounds_of a to) a web to

-- What a worker does after a part of `send_one`.
unfoldable pub settle : Web → ℕ → SendJob → Sent → Inner
settle web to job (a, none) = a
settle web to job (a, some (ok done)) = run_worker (told a job (ok done)) web to
settle web to job (a, some (err e)) = run_worker (told a job (err e)) web to
settle web to job (a, some panic) = a

abbrev is_open_channel : ChannelState → Bool
is_open_channel open_channel = true
is_open_channel _ = false

unfoldable pub best_effort_to : Inner → Web → ℕ → List ℕ → Inner
best_effort_to a web to bytes = elim (current_link a to) [
  | none ↦ a
  | some l ↦
      if l.closed || not (is_open_channel (web.best_effort_state l.epoch))
      then a
      else if ltb send_high_water (web.best_effort_buffered l.epoch)
      then a
      else put a (datagram l.epoch bytes)
]
