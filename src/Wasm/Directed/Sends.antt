-- ===== src/Wasm/Directed/Sends.antt =====
-- A send keeps the order of tasks and outputs.
use lobbylink.Base.{refl, lookup_cases}
use lobbylink.Base.Map
use lobbylink.Wasm.{
  set_link, transmit, datagram, reply, drain_wait, open_wait, link_wait, worker_start,
}
use lobbylink.Wasm.Sends.{next_id, await_drain, await_open, await_link}
use lobbylink.Wasm.Kept.{IsKept}
use lobbylink.Wasm.Directed.{IsOrdered, put-IsOrdered, spawn-IsOrdered, set_link-IsOrdered}
use lobbylink.Wasm.Directed.Handlers.{with_waiters-IsOrdered}

-- A send keeps the order.
pub IsOrdered-IsKept : IsKept IsOrdered
unfolding await_drain await_open await_link
IsOrdered-IsKept = record {
  sending = record {
    sent = λ a e frame d. put-IsOrdered a (transmit e frame) tt d;
    numbered = λ a e l there d.
        set_link-IsOrdered a e l (next_id l) there refl (λ n. d.flushed e l there n) d;
    drains = λ a s left seq d.
        lookup_cases IsOrdered (Map.get a.links s.epoch) _ _ (λ _. d)
          (λ l there.
            spawn-IsOrdered (set_link a s.epoch _) (drain_wait _ a.next_waiter) tt
              (with_waiters-IsOrdered a s.epoch l l.open_waiters _ there d));
    opens = λ a to job e l there d.
        spawn-IsOrdered (set_link a e _) (open_wait to job e a.next_waiter) tt
          (with_waiters-IsOrdered a e l _ l.drain_waiters there d);
    links = λ a to job d. spawn-IsOrdered a (link_wait to job a.next_waiter) tt d;
  };
  thrown = λ a e bytes d. put-IsOrdered a (datagram e bytes) tt d;
  replied = λ a job r d. put-IsOrdered a (reply job.done r) tt d;
  queued = λ a to queue d. d;
  started = λ a to d. spawn-IsOrdered a (worker_start to) tt d;
}
