-- ===== src/Wasm/Sends.antt =====
-- `send_one` of wasm/link.rs and its waits, from one `await` to the next. A send gives its result,
-- or none when it awaits.
use lobbylink.Base.{
  ℕ, zero, suc, ◌+◌, ◌-◌, ◌*◌, ◌%◌, ◌^◌, min, true, List, [], ◌∷◌, ◌++◌, Option, none, some, leb,
  if◌then◌else◌, ◌&&◌, length, take, drop, Text, codes, decimal,
}
use lobbylink.Base.Map
use lobbylink.Base.Outcome.{Outcome, ok, err, panic, ◌>>=◌}
use lobbylink.Error.{LobbyError, new, send_high_water, send_low_water, channel_timeout_ms}
use lobbylink.Framing.{make_frame, chunk_count, chunk_payload}
use lobbylink.Wasm.{
  Link, SendJob, Mail, opened, Sending, Inner, Web, open_channel, connecting, link_wait, open_wait,
  drain_wait, transmit, put, set_link, is_closed,
}
use lobbylink.Wasm.Links.{closed_error}
use lobbylink.Wasm.Callbacks.{current_link}

abbrev pub Result : Type 0
Result = Outcome LobbyError (Unit {0})

abbrev pub Sent : Type 0
Sent = Inner × Option Result

abbrev mid_send : ℕ → LobbyError
mid_send to =
    new (codes "send-failed")
      (codes "connection to player " ++ (decimal to ++ codes " closed mid-send"))

-- The text of the browser's own error is left out.
abbrev send_error : ℕ → LobbyError
send_error to =
    new (codes "send-failed") (codes "send to player " ++ (decimal to ++ codes " failed: "))

abbrev peer_closed : Text → ℕ → LobbyError
peer_closed how player_id =
    new (codes "peer-closed") (codes "channel to player " ++ (decimal player_id ++ how))

abbrev open_timeout : ℕ → LobbyError
open_timeout player_id =
    new (codes "channel-timeout")
      (codes "timed out opening channel to player " ++ decimal player_id)

abbrev no_session : ℕ → LobbyError
no_session to = new (codes "channel-timeout") (
    codes "no WebRTC session with player "
    ++ (decimal to ++ (codes " within " ++ (decimal channel_timeout_ms ++ codes "ms"))))

-- `&data[start..end]`
unfoldable pub slice : List ℕ → ℕ → ℕ → Outcome LobbyError (List ℕ)
slice xs start end =
    if leb start end && leb end (length xs) then ok (take (end - start) (drop start xs)) else panic

-- Before a chunk: it may go, the buffer must drain, or the send is over.
pub data Turn : Type 0 where
  go wait : Turn
  stop : LobbyError → Turn

-- A round of the loop in `wait_drain`.
unfoldable pub drain_turn : Inner → Web → Sending → ℕ → Turn
drain_turn a web s seq =
    if is_closed a s.epoch
    then stop (peer_closed (codes " closed") s.to)
    else if leb (web.buffered_amount s.job.done seq) send_low_water
    then go
    else wait

-- A round of the loop in `send_one`, up to the first `await` of `wait_drain`.
unfoldable pub first_turn : Inner → Web → Sending → ℕ → Turn
first_turn a web s seq =
    if is_closed a s.epoch
    then stop (mid_send s.to)
    else if leb (web.buffered_amount s.job.done seq) send_high_water
    then go
    else drain_turn a web s seq

unfoldable pub frame_at : Sending → ℕ → Outcome LobbyError (List ℕ)
unfolding slice
frame_at s seq = do
  let start = seq * chunk_payload
  let end = min (start + chunk_payload) (length s.job.bytes)
  payload ← slice s.job.bytes start end
  ok (make_frame s.msg_id seq s.total payload)

unfoldable pub send_chunk : Inner → Web → Sending → ℕ → Outcome LobbyError Inner
send_chunk a web s seq = do
  frame ← frame_at s seq
  if web.send_ok s.job.done seq then ok (put a (transmit s.epoch frame)) else err (send_error s.to)

-- The channel's event or the poll will wake the task.
unfoldable pub await_drain : Inner → Sending → ℕ → ℕ → Inner
await_drain a s left seq = elim (Map.get a.links s.epoch) [
  | none ↦ a
  | some l ↦ record a {
    links =
        Map.insert a.links s.epoch
          (record l { drain_waiters = l.drain_waiters ++ (a.next_waiter ∷ []) });
    next_waiter = a.next_waiter + 1;
    tasks = a.tasks ++ (drain_wait (record s { left = left; seq = seq }) a.next_waiter ∷ []);
  }
]

-- The loop, with the chunks that are left.
unfoldable pub send_from : Inner → Web → Sending → Turn → ℕ → ℕ → Sent
send_from a web s turn zero seq = (a, some (ok tt))
send_from a web s (stop e) (suc left) seq = (a, some (err e))
send_from a web s wait (suc left) seq = (await_drain a s (suc left) seq, none)
send_from a web s go (suc left) seq = elim (send_chunk a web s seq) [
  | ok a' ↦ send_from a' web s (first_turn a' web s (suc seq)) left (suc seq)
  | err e ↦ (a, some (err e))
  | panic ↦ (a, some panic)
]

abbrev pub sending : ℕ → SendJob → ℕ → ℕ → Sending
sending to job epoch msg_id = record {
  to = to;
  job = job;
  epoch = epoch;
  msg_id = msg_id;
  total = chunk_count (length job.bytes);
  left = chunk_count (length job.bytes);
  seq = 0;
}

abbrev pub next_id : Link → Link
next_id l = record l { next_msg_id = (l.next_msg_id + 1) % 2 ^ 32 }

-- The channel is open: the message gets its id.
unfoldable pub start_message : Inner → Web → ℕ → SendJob → ℕ → Sent
start_message a web to job epoch = elim (Map.get a.links epoch) [
  | none ↦ (a, some panic)
  | some l ↦
      let a' = set_link a epoch (next_id l) in
      let s = sending to job epoch l.next_msg_id in
      send_from a' web s (first_turn a' web s 0) s.left 0
]

unfoldable pub await_open : Inner → ℕ → SendJob → ℕ → Link → Inner
await_open a to job epoch l = record a {
  links =
      Map.insert a.links epoch (record l { open_waiters = l.open_waiters ++ (a.next_waiter ∷ []) });
  next_waiter = a.next_waiter + 1;
  tasks = a.tasks ++ (open_wait to job epoch a.next_waiter ∷ []);
}

unfoldable pub wait_open : Inner → Web → ℕ → SendJob → ℕ → Sent
wait_open a web to job epoch = elim (Map.get a.links epoch) [
  | none ↦ (a, some panic)
  | some l ↦
      if l.closed
      then (a, some (err (peer_closed (codes " is closed") l.player_id)))
      else (elim (web.reliable_state epoch) [
        | open_channel ↦ start_message a web to job epoch
        | connecting ↦ (await_open a to job epoch l, none)
        | _ ↦ (a, some (err (peer_closed (codes " closed") l.player_id)))
      ])
]

-- What came of the wait for the channel; none is the timeout.
unfoldable pub open_known : Inner → Web → ℕ → SendJob → ℕ → Option Mail → Sent
open_known a web to job epoch (some (opened true)) = start_message a web to job epoch
open_known a web to job epoch (some m) = (a, some (err (peer_closed (codes " closed") to)))
open_known a web to job epoch none = (a, some (err (open_timeout to)))

abbrev waiters_of : Option (List ℕ) → List ℕ
waiters_of none = []
waiters_of (some waiters) = waiters

unfoldable pub await_link : Inner → ℕ → SendJob → Inner
await_link a to job = record a {
  link_waiters =
      Map.insert a.link_waiters to (waiters_of (Map.get a.link_waiters to) ++ (a.next_waiter ∷ []));
  next_waiter = a.next_waiter + 1;
  tasks = a.tasks ++ (link_wait to job a.next_waiter ∷ []);
}

-- `send_one` up to its first `await`.
unfoldable pub wait_link : Inner → Web → ℕ → SendJob → Sent
wait_link a web to job =
    if a.closed then (a, some (err closed_error)) else (elim (current_link a to) [
      | none ↦ (await_link a to job, none)
      | some l ↦ if l.closed then (await_link a to job, none) else wait_open a web to job l.epoch
    ])

unfoldable pub link_known : Inner → Web → ℕ → SendJob → Option Mail → Sent
link_known a web to job (some (Mail.link epoch)) = wait_open a web to job epoch
link_known a web to job (some m) = (a, some (err closed_error))
link_known a web to job none = (a, some (err (no_session to)))
