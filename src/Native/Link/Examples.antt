-- ===== src/Native/Link/Examples.antt =====
-- Sends: tests, and the theorems at one message of three bytes.
use lobbylink.Native.Link.Serial.{InTurn, sender_task-InTurn}
use lobbylink.Native.Link.Queue.{
  SendJob, Counters, run_job, id_taken, after, sender_task, ids_on, counted_from,
  ids_on-sender_task,
}
use lobbylink.Native.Link.Progress.{IsGood, send_one_completes}
use lobbylink.Base.{
  All, length, ◌+◌, ◌*◌, ◌-◌, ◌^◌, ◌==◌, if◌then◌else◌, some, none, ◌≤◌, ℕ, ◌≡◌, refl, true, false,
  List, [], ◌∷◌, arith,
}
use lobbylink.Base.Outcome.{ok}
use lobbylink.Framing.{chunk_count, max_reliable_message}
use lobbylink.Reassembly.{Reassembler, new}
use lobbylink.Native.Receive.{receive_all}
use lobbylink.Native.Link.{
  Look, open_channel, connecting, wait_reliable_open, drain_loop, wait_drain, transmit, prepare,
  send_loop, send_one, slice, wait_link, Watched, shows,
}
use lobbylink.Native.Link.Frames.{frames_of, SentOf, send_one-SentOf}
use lobbylink.Native.Link.Transfer.{stamp, receive_all-send_one}

abbrev look : Look
look = record {
  timed_out = false;
  closed = false;
  ready_state = open_channel;
  buffered_amount = 0;
  send_ok = true;
}

abbrev full_look : Look
full_look = record look { buffered_amount = 2_000_000 }

abbrev connecting_look : Look
connecting_look = record look { ready_state = connecting }

-- The channel opens, the link is open, the buffer drains, and the send succeeds.
abbrev looks : List Look
looks = connecting_look ∷ look ∷ look ∷ full_look ∷ full_look ∷ look ∷ look ∷ []

abbrev bytes : List ℕ
bytes = 1 ∷ 2 ∷ 3 ∷ []

sent_all : (send_one 4 7 bytes looks).result ≡ ok []
unfolding send_one wait_reliable_open send_loop prepare wait_drain drain_loop transmit slice
    chunk_count
sent_all = refl

one_frame : 1 ≡ chunk_count 3
unfolding chunk_count
one_frame = refl

send_one-SentOf_example :
    SentOf
      (frames_of 7 bytes)
      ((send_one 4 7 bytes looks).frames, (send_one 4 7 bytes looks).result)
send_one-SentOf_example = send_one-SentOf 4 7 bytes looks (omega arith)

receive_all-send_one_example :
    (r : Reassembler) × (receive_all new (stamp (send_one 4 7 bytes looks).frames (250 ∷ []))
      ≡ ok (r, bytes ∷ []))
receive_all-send_one_example =
    receive_all-send_one 4 7 bytes looks [] 200 (250 ∷ []) (omega arith) (omega arith) sent_all
      one_frame (ground arith)

look-IsGood : IsGood look
look-IsGood = record {
  in_time = refl;
  alive = refl;
  opened = refl;
  room = omega arith;
  sends = refl;
}

abbrev five_looks : List Look
five_looks = look ∷ look ∷ look ∷ look ∷ look ∷ []

five_looks_open : All IsGood five_looks
five_looks_open = (look-IsGood, (look-IsGood, (look-IsGood, (look-IsGood, (look-IsGood, tt)))))

five_looks_enough : 1 + 3 * chunk_count 3 ≤ 5
unfolding chunk_count
five_looks_enough = omega arith

send_one_completes_example :
    (left : List Look) × ((send_one 4 7 bytes five_looks).result ≡ ok left)
    × ((send_one 4 7 bytes five_looks).frames ≡ frames_of 7 bytes)
    × (length left + (1 + 3 * chunk_count 3) ≡ 5)
send_one_completes_example =
    send_one_completes 4 7 bytes five_looks (omega arith) five_looks_open five_looks_enough

-- Link 5 gets the first and the last message; the second has no link, the third goes over link 6.
abbrev jobs : List SendJob
jobs =
    record { bytes = bytes; watched = shows none ∷ shows (some (5, false)) ∷ []; looks = looks }
    ∷ record { bytes = bytes; watched = Watched.timed_out ∷ []; looks = [] }
    ∷ record { bytes = bytes; watched = shows (some (6, false)) ∷ []; looks = looks }
    ∷ record { bytes = bytes; watched = shows (some (5, false)) ∷ []; looks = looks }
    ∷ []

abbrev counters : Counters
counters e = if e == 5 then 2 ^ 32 - 1 else 0

ids_on_five : ids_on 5 (sender_task 4 counters jobs) ≡ (2 ^ 32 - 1) ∷ 0 ∷ []
unfolding ids_on sender_task run_job id_taken after wait_link send_one wait_reliable_open send_loop
    prepare wait_drain drain_loop transmit slice chunk_count
ids_on_five = refl

ids_on-sender_task_example :
    ids_on 5 (sender_task 4 counters jobs)
    ≡ counted_from (2 ^ 32 - 1) (length (ids_on 5 (sender_task 4 counters jobs)))
ids_on-sender_task_example = ids_on-sender_task 4 counters jobs 5

jobs_fit : All (λ (job : SendJob). length job.bytes ≤ max_reliable_message) jobs
jobs_fit = (omega arith, (omega arith, (omega arith, (omega arith, tt))))

sender_task-InTurn_example : InTurn jobs (sender_task 4 counters jobs)
sender_task-InTurn_example = sender_task-InTurn 4 counters jobs jobs_fit
