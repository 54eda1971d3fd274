-- ===== src/Wasm/Kept.antt =====
-- What the sends keep: every property of the state that a few small changes keep. The proofs go
-- from one `await` to the next.
pub mod Workers
pub mod Calls
use lobbylink.Base.{
  ℕ, zero, suc, ◌≡◌, true, false, List, [], ◌∷◌, Option, none, some, if_both, lookup_cases, ltb,
  not, ◌==◌, ◌&&◌, length, if◌then◌else◌,
}
use lobbylink.Base.Map
use lobbylink.Error.{LobbyError, send_high_water, max_best_effort}
use lobbylink.Framing.{max_reliable_message}
use lobbylink.Roster.{PlayerInfo, check_target}
use lobbylink.Wasm.Links.{closed_error}
use lobbylink.Wasm.Game.{
  Game, best_effort_to_all, is_occupied, game_send_best_effort, game_broadcast, game_send_reliable,
}
use lobbylink.Base.Outcome.{Outcome, ok, err, panic, ◌>>=◌, ◌>>◌, reject_if, >>=_cases}
use lobbylink.Wasm.{
  Link, SendJob, SendQueue, Mail, opened, drained, dropped, Sending, Inner, Web, ChannelState,
  open_channel, connecting, closing, transmit, datagram, reply, worker_start, put, spawn, set_link,
}
use lobbylink.Wasm.Callbacks.{current_link}
use lobbylink.Wasm.Sends.{
  Result, Sent, Turn, go, wait, stop, first_turn, frame_at, send_chunk, await_drain, send_from,
  next_id, start_message, await_open, wait_open, open_known, await_link, wait_link, link_known,
}
use lobbylink.Wasm.Worker.{
  queue_of, set_queue, queue_reliable, told, worker, run_worker, rounds_of, settle, best_effort_to,
}

-- The changes that the send of one message is made of.
pub record IsSendKept (P : Inner → Type 0) : Type 0 where
  pub sent : (a : Inner) (e : ℕ) (frame : List ℕ) → P a → P (put a (transmit e frame))
  pub numbered :
      (a : Inner) (e : ℕ) (l : Link)
      → Map.get a.links e ≡ some l
      → P a
      → P (set_link a e (next_id l))
  pub drains : (a : Inner) (s : Sending) (left seq : ℕ) → P a → P (await_drain a s left seq)
  pub opens :
      (a : Inner) (to : ℕ) (job : SendJob) (e : ℕ) (l : Link)
      → Map.get a.links e ≡ some l
      → P a
      → P (await_open a to job e l)
  pub links : (a : Inner) (to : ℕ) (job : SendJob) → P a → P (await_link a to job)

-- The changes that all sends are made of.
pub record IsKept (P : Inner → Type 0) : Type 0 where
  pub sending : IsSendKept P
  pub thrown : (a : Inner) (e : ℕ) (bytes : List ℕ) → P a → P (put a (datagram e bytes))
  pub replied : (a : Inner) (job : SendJob) (r : Result) → P a → P (told a job r)
  pub queued : (a : Inner) (to : ℕ) (queue : SendQueue) → P a → P (set_queue a to queue)
  pub started : (a : Inner) (to : ℕ) → P a → P (spawn a (worker_start to))

-- A call that gives a state gives one of the kind.
abbrev OkKept : (Inner → Type 0) → Outcome LobbyError Inner → Type 0
OkKept P (ok a) = P a
OkKept P _ = Unit

abbrev pub SentKept : (Inner → Type 0) → Sent → Type 0
SentKept P r = P r.0

module _ (P : Inner → Type 0) (k : IsSendKept P) where
  send_chunk_keeps :
      (a : Inner) (web : Web) (s : Sending) (seq : ℕ) → P a → OkKept P (send_chunk a web s seq)
  unfolding send_chunk
  send_chunk_keeps a web s seq v =
      >>=_cases (OkKept P) (frame_at s seq) _
        (λ frame _.
          if_both (OkKept P) (web.send_ok s.job.done seq) _ _ (k.sent a s.epoch frame v) tt)
        (λ e. tt) (λ _. tt)

  after_chunk :
      (o : Outcome LobbyError Inner) (a : Inner) (next : Inner → Sent)
      → OkKept P o
      → P a
      → ((a' : Inner) → P a' → SentKept P (next a'))
      → SentKept P
          (elim o [ ok a' ↦ next a' | err e ↦ (a, some (err e)) | panic ↦ (a, some panic) ])
  after_chunk (ok a') a next p v q = q a' p
  after_chunk (err e) a next p v q = v
  after_chunk panic a next p v q = v

  pub send_from_keeps :
      (a : Inner) (web : Web) (s : Sending) (turn : Turn) (left seq : ℕ)
      → P a
      → SentKept P (send_from a web s turn left seq)
  unfolding send_from
  send_from_keeps a web s turn zero seq v = v
  send_from_keeps a web s (stop e) (suc left) seq v = v
  send_from_keeps a web s wait (suc left) seq v = k.drains a s (suc left) seq v
  send_from_keeps a web s go (suc left) seq v =
      after_chunk (send_chunk a web s seq) a _ (send_chunk_keeps a web s seq v) v
        (λ a' v'. send_from_keeps a' web s (first_turn a' web s (suc seq)) left (suc seq) v')

  start_message_keeps :
      (a : Inner) (web : Web) (to : ℕ) (job : SendJob) (e : ℕ)
      → P a
      → SentKept P (start_message a web to job e)
  unfolding start_message
  start_message_keeps a web to job e v =
      lookup_cases (SentKept P) (Map.get a.links e) _ _ (λ _. v)
        (λ l there. send_from_keeps _ web _ _ _ 0 (k.numbered a e l there v))

  open_cases :
      (state : ChannelState) (x y z : Sent)
      → SentKept P x
      → SentKept P y
      → SentKept P z
      → SentKept P (elim state [ open_channel ↦ x | connecting ↦ y | _ ↦ z ])
  open_cases open_channel x y z p q r = p
  open_cases connecting x y z p q r = q
  open_cases closing x y z p q r = r
  open_cases ChannelState.closed x y z p q r = r
  open_cases ChannelState.other x y z p q r = r

  wait_open_keeps :
      (a : Inner) (web : Web) (to : ℕ) (job : SendJob) (e : ℕ)
      → P a
      → SentKept P (wait_open a web to job e)
  unfolding wait_open
  wait_open_keeps a web to job e v =
      lookup_cases (SentKept P) (Map.get a.links e) _ _ (λ _. v)
        (λ l there. if_both (SentKept P) l.closed _ _ v (
          open_cases (web.reliable_state e) _ _ _ (start_message_keeps a web to job e v)
            (k.opens a to job e l there v) v))

  pub open_known_keeps :
      (a : Inner) (web : Web) (to : ℕ) (job : SendJob) (e : ℕ) (m : Option Mail)
      → P a
      → SentKept P (open_known a web to job e m)
  unfolding open_known
  open_known_keeps a web to job e (some (opened true)) v = start_message_keeps a web to job e v
  open_known_keeps a web to job e (some (opened false)) v = v
  open_known_keeps a web to job e (some (Mail.link e')) v = v
  open_known_keeps a web to job e (some drained) v = v
  open_known_keeps a web to job e (some dropped) v = v
  open_known_keeps a web to job e none v = v

  pub wait_link_keeps :
      (a : Inner) (web : Web) (to : ℕ) (job : SendJob) → P a → SentKept P (wait_link a web to job)
  unfolding wait_link
  wait_link_keeps a web to job v = if_both (SentKept P) a.closed _ _ v (
      lookup_cases (SentKept P) (current_link a to) _ _ (λ _. k.links a to job v)
        (λ l _.
          if_both (SentKept P) l.closed _ _ (k.links a to job v)
            (wait_open_keeps a web to job l.epoch v)))

  pub link_known_keeps :
      (a : Inner) (web : Web) (to : ℕ) (job : SendJob) (m : Option Mail)
      → P a
      → SentKept P (link_known a web to job m)
  unfolding link_known
  link_known_keeps a web to job (some (Mail.link e)) v = wait_open_keeps a web to job e v
  link_known_keeps a web to job (some (opened b)) v = v
  link_known_keeps a web to job (some drained) v = v
  link_known_keeps a web to job (some dropped) v = v
  link_known_keeps a web to job none v = v
