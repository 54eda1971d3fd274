-- ===== src/Native/Link/Queue.antt =====
-- clients/rust/src/native/link.rs: `sender_task`, which takes one job after the other, and the
-- message ids that it gives out. Each link has its own counter, named by the link's epoch.
use mathlib.Core.Path.{subst}
use lobbylink.Base.{
  ℕ, zero, suc, ◌+◌, ◌%◌, ◌^◌, ◌≡◌, refl, ap, List, [], ◌∷◌, ◌++◌, Option, none, some, ◌==◌,
  if◌then◌else◌, length, ◌⊎◌, inl, inr, arith,
}
use lobbylink.Base.Outcome.{ok, err, panic}
use lobbylink.Native.Link.{
  Look, Watched, Wait, Stop, failed, waiting, wait_link, wait_reliable_open, send_one,
}

-- A job, with what the task sees while it works on it.
pub record SendJob : Type 0 where
  pub bytes : List ℕ
  pub watched : List Watched
  pub looks : List Look

-- What became of a job: the link and the message id, if it got as far, and the result.
pub record Finished : Type 0 where
  pub id : Option (ℕ × ℕ)
  pub frames : List (List ℕ)
  pub result : Wait (List Look)

abbrev pub Counters : Type 0
Counters = ℕ → ℕ

abbrev bump : Counters → ℕ → ℕ → Counters
bump ids epoch next = λ e. if e == epoch then next else ids e

-- The id that `send_one` takes, once the channel is open.
unfoldable pub id_taken : ℕ → ℕ → Wait (List Look) → Option (ℕ × ℕ)
id_taken epoch id (ok looks) = some (epoch, id)
id_taken epoch id (err e) = none
id_taken epoch id panic = none

-- The call of `send_one` for one job, from its `wait_link` on.
unfoldable pub run_job : ℕ → Counters → SendJob → Counters × Finished
run_job player_id ids job = elim (wait_link player_id job.watched) [
  | ok epoch ↦
      let sent = send_one player_id (ids epoch) job.bytes job.looks in
      (
        bump ids epoch sent.next_msg_id,
        record {
          id = id_taken epoch (ids epoch) (wait_reliable_open player_id job.looks);
          frames = sent.frames;
          result = sent.result;
        },
      )
  | err e ↦ (ids, record { id = none; frames = []; result = err e })
  | panic ↦ (ids, record { id = none; frames = []; result = panic })
]

-- What follows a job: nothing while the task still waits in it, or once it has panicked.
unfoldable pub after : {A : Type 0} → Wait (List Look) → List A → List A
after (ok looks) rest = rest
after (err (failed e)) rest = rest
after (err waiting) rest = []
after panic rest = []

-- The task takes the next job when it is done with the last, whatever became of it.
unfoldable pub sender_task : ℕ → Counters → List SendJob → List Finished
sender_task player_id ids [] = []
sender_task player_id ids (job ∷ jobs) =
    let (ids', done) = run_job player_id ids job in
    let rest = sender_task player_id ids' jobs in done ∷ after done.result rest

-- The ids given out on one link, in order.
abbrev id_on : ℕ → Option (ℕ × ℕ) → List ℕ
id_on e none = []
id_on e (some (epoch, id)) = if epoch == e then id ∷ [] else []

unfoldable pub ids_on : ℕ → List Finished → List ℕ
ids_on e [] = []
ids_on e (done ∷ rest) = id_on e done.id ++ ids_on e rest

unfoldable pub counted_from : ℕ → ℕ → List ℕ
counted_from id zero = []
counted_from id (suc n) = id ∷ counted_from ((id + 1) % 2 ^ 32) n

-- What one job gives out on a link whose counter is at `here`, and where it leaves it.
abbrev Gives : ℕ → ℕ → List ℕ → Type 0
Gives here next given =
    ((given ≡ []) × (next ≡ here)) ⊎ ((given ≡ here ∷ []) × (next ≡ (here + 1) % 2 ^ 32))

bump-Gives :
    (ids : Counters) (epoch e next : ℕ) (o : Wait (List Look))
    → next ≡ elim o [ ok looks ↦ (ids epoch + 1) % 2 ^ 32 | _ ↦ ids epoch ]
    → Gives (ids e) (bump ids epoch next e) (id_on e (id_taken epoch (ids epoch) o))
unfolding id_taken
bump-Gives ids epoch e next (ok looks) h = ground arith
bump-Gives ids epoch e next (err x) h = ground arith
bump-Gives ids epoch e next panic h = ground arith

next_msg_id_lem :
    (p id : ℕ) (bytes : List ℕ) (looks : List Look)
    → (send_one p id bytes looks).next_msg_id
      ≡ elim (wait_reliable_open p looks) [ ok looks ↦ (id + 1) % 2 ^ 32 | _ ↦ id ]
unfolding send_one
next_msg_id_lem p id bytes looks = ground arith

-- What holds however a wait ends.
pub each_end :
    {A : Type 0} (P : A → Type 0) (w : Wait ℕ) (f : ℕ → A) (g : Stop → A) (x : A)
    → ((n : ℕ) → P (f n))
    → ((e : Stop) → P (g e))
    → (w ≡ panic → P x)
    → P (elim w [ ok n ↦ f n | err e ↦ g e | panic ↦ x ])
each_end P (ok n) f g x p q r = p n
each_end P (err e) f g x p q r = q e
each_end P panic f g x p q r = r refl

run_job-Gives :
    (p : ℕ) (ids : Counters) (job : SendJob) (e : ℕ)
    → Gives (ids e) ((run_job p ids job).0 e) (id_on e (run_job p ids job).1.id)
unfolding run_job
run_job-Gives p ids job e =
    each_end (λ (r : Counters × Finished). Gives (ids e) (r.0 e) (id_on e r.1.id))
      (wait_link p job.watched) _ _ _
      (λ epoch.
        bump-Gives ids epoch e _ (wait_reliable_open p job.looks)
          (next_msg_id_lem p (ids epoch) job.bytes job.looks))
      (λ x. inl (refl, refl)) (λ _. inl (refl, refl))

Counted : ℕ → List ℕ → Type 0
Counted id xs = xs ≡ counted_from id (length xs)

Gives-Counted :
    (here next : ℕ) (given rest : List ℕ)
    → Gives here next given
    → Counted next rest
    → Counted here (given ++ rest)
unfolding Counted counted_from
Gives-Counted here next given rest (inl (none_given, same)) c =
    rw (none_given, ◌++◌) (subst (λ n. Counted n rest) same c)
Gives-Counted here next given rest (inr (one_given, moved)) c =
    rw (one_given, ◌++◌) (ap (λ xs. here ∷ xs) (subst (λ n. Counted n rest) moved c))

after-Counted :
    (id e : ℕ) (r : Wait (List Look)) (rest : List Finished)
    → Counted id (ids_on e rest)
    → Counted id (ids_on e (after r rest))
unfolding after ids_on Counted counted_from
after-Counted id e (ok looks) rest c = c
after-Counted id e (err (failed x)) rest c = c
after-Counted id e (err waiting) rest c = refl
after-Counted id e panic rest c = refl

-- The ids of the messages that the task starts to send over one link follow each other, modulo
-- 2 ^ 32, from the link's counter on, in the order of the jobs, whatever fails in between and
-- whatever is sent over other links.
pub ids_on-sender_task :
    (player_id : ℕ) (ids : Counters) (jobs : List SendJob) (e : ℕ)
    → ids_on e (sender_task player_id ids jobs)
      ≡ counted_from (ids e) (length (ids_on e (sender_task player_id ids jobs)))
unfolding sender_task ids_on Counted counted_from
ids_on-sender_task p ids [] e = refl
ids_on-sender_task p ids (job ∷ jobs) e =
    let (ids', done) = run_job p ids job in
    Gives-Counted (ids e) (ids' e) (id_on e done.id) _ (run_job-Gives p ids job e)
      (after-Counted (ids' e) e done.result _ (ids_on-sender_task p ids' jobs e))
