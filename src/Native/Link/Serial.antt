-- ===== src/Native/Link/Serial.antt =====
-- The jobs of `sender_task` one after the other, and what each puts on its link.
use lobbylink.Base.{
  ℕ, ◌≤◌, ◌≡◌, ◌≢◌, refl, List, [], ◌∷◌, All, Option, none, some, length, ◌⊎◌, inl, inr, arith,
}
use lobbylink.Base.Outcome.{ok, err, panic}
use lobbylink.Framing.{max_reliable_message}
use lobbylink.Native.Link.{
  Look, Watched, Wait, Stop, failed, waiting, shows, dropped, wait_link, wait_reliable_open,
  send_one,
}
use lobbylink.Native.Link.Frames.{frames_of, SentOf, send_one-SentOf}
use lobbylink.Native.Link.Queue.{
  SendJob, Finished, Counters, each_end, id_taken, run_job, after, sender_task,
}

-- What a job put on its link: nothing if it got no message id, and otherwise frames of its own
-- message with that id, in order from the first on, and all of them if it ended well.
abbrev pub Puts : List ℕ → Finished → Type 0
Puts bytes done = elim done.id [
  | none ↦ (done.frames ≡ []) × ((e : Stop) × (done.result ≡ err e))
  | some (epoch, id) ↦ SentOf (frames_of id bytes) (done.frames, done.result)
]

-- Each job in its turn, up to one in which the task still waits.
abbrev pub InTurn : List SendJob → List Finished → Type 0
InTurn [] outs = outs ≡ []
InTurn (job ∷ jobs) [] = job ∷ jobs ≡ []
InTurn (job ∷ jobs) (done ∷ rest) =
    Puts job.bytes done
    × (((done.result ≡ err waiting) × (rest ≡ []))
        ⊎ ((done.result ≢ err waiting) × InTurn jobs rest))

wait_link-ne-panic : (p : ℕ) (watched : List Watched) → wait_link p watched ≢ panic
unfolding wait_link
wait_link-ne-panic p [] h = ground arith
wait_link-ne-panic p (shows none ∷ rest) h = wait_link-ne-panic p rest h
wait_link-ne-panic p (shows (some (epoch, closed)) ∷ rest) h =
    ground (arith, wait_link-ne-panic p rest)
wait_link-ne-panic p (dropped ∷ rest) h = ground arith
wait_link-ne-panic p (Watched.timed_out ∷ rest) h = ground arith

SentOf-ne-panic :
    (all sent : List (List ℕ)) (r : Wait (List Look)) → SentOf all (sent, r) → r ≢ panic
SentOf-ne-panic all sent (ok looks) s h = ground arith
SentOf-ne-panic all sent (err e) s h = ground arith
SentOf-ne-panic all sent panic s h = s

sent_Puts :
    (p id epoch : ℕ) (bytes : List ℕ) (looks : List Look) (o : Wait (List Look))
    → wait_reliable_open p looks ≡ o
    → length bytes ≤ max_reliable_message
    → Puts bytes (record {
      id = id_taken epoch id o;
      frames = (send_one p id bytes looks).frames;
      result = (send_one p id bytes looks).result;
    })
unfolding id_taken send_one
sent_Puts p id epoch bytes looks (ok left) opened fits = send_one-SentOf p id bytes looks fits
sent_Puts p id epoch bytes looks (err e) opened fits = rw (opened, send_one) (refl, (e, refl))
sent_Puts p id epoch bytes looks panic opened fits = absurd (
    SentOf-ne-panic (frames_of id bytes) _ _ (send_one-SentOf p id bytes looks fits)
      (rw (opened, send_one) refl))

run_job-Puts :
    (p : ℕ) (ids : Counters) (job : SendJob)
    → length job.bytes ≤ max_reliable_message
    → Puts job.bytes (run_job p ids job).1
unfolding run_job
run_job-Puts p ids job fits =
    each_end (λ (r : Counters × Finished). Puts job.bytes r.1) (wait_link p job.watched) _ _ _
      (λ epoch.
        sent_Puts p (ids epoch) epoch job.bytes job.looks (wait_reliable_open p job.looks) refl
          fits)
      (λ e. (refl, (e, refl))) (λ stops. absurd (wait_link-ne-panic p job.watched stops))

Puts-ne-panic :
    (bytes : List ℕ) (id : Option (ℕ × ℕ)) (frames : List (List ℕ)) (result : Wait (List Look))
    → Puts bytes (record { id = id; frames = frames; result = result })
    → result ≢ panic
Puts-ne-panic bytes none frames result (empty, (e, ended)) h = ground arith
Puts-ne-panic bytes (some (epoch, id)) frames result puts h =
    SentOf-ne-panic (frames_of id bytes) frames result puts h

after-InTurn :
    (r : Wait (List Look)) (jobs : List SendJob) (rest : List Finished)
    → r ≢ panic
    → InTurn jobs rest
    → ((r ≡ err waiting) × (after r rest ≡ [])) ⊎ ((r ≢ err waiting) × InTurn jobs (after r rest))
unfolding after
after-InTurn (ok looks) jobs rest h t = inr (λ q. ground arith, t)
after-InTurn (err (failed e)) jobs rest h t = inr (λ q. ground arith, t)
after-InTurn (err waiting) jobs rest h t = inl (refl, refl)
after-InTurn panic jobs rest h t = absurd (h refl)

-- With messages of at most 16 MiB, the task works on its jobs strictly in order: none is left out,
-- and the next one begins when the last has its result, good or bad. Each puts on its link only
-- frames of its own message under its own id, in order from the first on, all of them if it ends
-- well, and none if it got no id; nothing panics.
pub sender_task-InTurn :
    (player_id : ℕ) (ids : Counters) (jobs : List SendJob)
    → All (λ (job : SendJob). length job.bytes ≤ max_reliable_message) jobs
    → InTurn jobs (sender_task player_id ids jobs)
unfolding sender_task
sender_task-InTurn p ids [] fit = refl
sender_task-InTurn p ids (job ∷ jobs) fit =
    let (ids', done) = run_job p ids job in
    let puts = run_job-Puts p ids job fit.0 in
    (
      puts,
      after-InTurn done.result jobs _ (Puts-ne-panic job.bytes done.id done.frames done.result puts)
          (sender_task-InTurn p ids' jobs fit.1),
    )
