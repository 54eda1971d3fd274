-- ===== src/Native/Link/Progress.antt =====
-- A send over a link that stays open comes to its end.
use lobbylink.Base.{
  ℕ, zero, suc, ◌+◌, ◌-◌, ◌*◌, ◌≤◌, ◌≡◌, refl, true, false, List, [], ◌∷◌, All, length, arith,
}
use lobbylink.Base.Outcome.{ok, err, panic}
use lobbylink.Error.{send_high_water}
use lobbylink.Framing.{make_frame, chunk_count, chunk_payload, max_reliable_message}
use lobbylink.Framing.Chunks.{chunk_count_exact}
use lobbylink.Native.Link.{
  Look, Wait, open_channel, wait_reliable_open, wait_drain, transmit, prepare, send_loop, send_one,
}
use lobbylink.Native.Link.Chunks.{chunk}
use lobbylink.Native.Link.Frames.{slice-chunk, frames_of, SentOf, send_one-SentOf}

-- A look at an open channel with room in its buffer, whose send succeeds.
pub record IsGood (look : Look) : Type 0 where
  pub in_time : look.timed_out ≡ false
  pub alive : look.closed ≡ false
  pub opened : look.ready_state ≡ open_channel
  pub room : look.buffered_amount ≤ send_high_water
  pub sends : look.send_ok ≡ true

prepare-good :
    (p : ℕ) (bytes : List ℕ) (msg_id total seq : ℕ) (l l' : Look) (looks : List Look)
    → IsGood l
    → IsGood l'
    → seq * chunk_payload ≤ length bytes
    → prepare p bytes msg_id total seq (l ∷ l' ∷ looks)
      ≡ ok (make_frame msg_id seq total (chunk chunk_payload bytes seq), looks)
unfolding prepare wait_drain
prepare-good p bytes msg_id total seq l l' looks g g' h =
    ground (arith, g.alive, g'.room, slice-chunk chunk_payload bytes seq h)

transmit-good :
    (p : ℕ) (l : Look) (looks : List Look) → IsGood l → transmit p (l ∷ looks) ≡ ok looks
unfolding transmit
transmit-good p l looks g = ground (arith, g.sends)

send_loop-good :
    (p : ℕ) (bytes : List ℕ) (msg_id total rounds seq : ℕ) (looks : List Look)
    → All IsGood looks
    → 3 * rounds ≤ length looks
    → (seq + rounds - 1) * chunk_payload ≤ length bytes
    → (left : List Look) × ((send_loop p bytes msg_id total rounds seq looks).1 ≡ ok left)
      × (length left + 3 * rounds ≡ length looks)
unfolding send_loop
send_loop-good p bytes msg_id total zero seq looks good enough h = (looks, refl, omega arith)
send_loop-good p bytes msg_id total (suc rounds) seq [] good enough h = absurd (omega arith)
send_loop-good p bytes msg_id total (suc rounds) seq (l ∷ []) good enough h = absurd (omega arith)
send_loop-good p bytes msg_id total (suc rounds) seq (l ∷ l' ∷ []) good enough h =
    absurd (omega arith)
send_loop-good p bytes msg_id total (suc rounds) seq (l ∷ l' ∷ l'' ∷ looks) good enough h =
    let (left, done, spent) =
      send_loop-good p bytes msg_id total rounds (suc seq) looks good.1.1.1 (omega arith)
        (omega arith) in
    (
      left,
      rw
          (
            prepare-good p bytes msg_id total seq l l' (l'' ∷ looks) good.0 good.1.0 (omega arith),
            send_loop,
          )
          (rw (transmit-good p l'' looks good.1.1.0) done),
      omega (arith, spent),
    )

SentOf-ok :
    (all : List (List ℕ)) (r : List (List ℕ) × Wait (List Look)) (left : List Look)
    → SentOf all r
    → r.1 ≡ ok left
    → r.0 ≡ all
SentOf-ok all (sent, ok looks) left s e = s
SentOf-ok all (sent, err x) left s e = cc
SentOf-ok all (sent, panic) left s e = absurd s

opens :
    (p : ℕ) (l : Look) (looks : List Look) → IsGood l → wait_reliable_open p (l ∷ looks) ≡ ok looks
unfolding wait_reliable_open
opens p l looks g = rw (g.in_time, g.alive, g.opened)

ends :
    (p msg_id : ℕ) (bytes : List ℕ) (l : Look) (looks left : List Look)
    → IsGood l
    → (send_loop p bytes msg_id (chunk_count (length bytes)) (chunk_count (length bytes)) 0 looks).1
      ≡ ok left
    → (send_one p msg_id bytes (l ∷ looks)).result ≡ ok left
unfolding send_one
ends p msg_id bytes l looks left g done = rw (opens p l looks g, send_one) done

-- A send of at most 16 MiB comes to its end, with all its frames handed over, once the task has
-- looked three times for each chunk and once before at a link that stays open, with room in its
-- buffer and without an error of the transport; nothing else is needed.
pub send_one_completes :
    (player_id msg_id : ℕ) (bytes : List ℕ) (looks : List Look)
    → length bytes ≤ max_reliable_message
    → All IsGood looks
    → 1 + 3 * chunk_count (length bytes) ≤ length looks
    → (left : List Look) × ((send_one player_id msg_id bytes looks).result ≡ ok left)
      × ((send_one player_id msg_id bytes looks).frames ≡ frames_of msg_id bytes)
      × (length left + (1 + 3 * chunk_count (length bytes)) ≡ length looks)
send_one_completes p msg_id bytes [] fits good enough = absurd (omega arith)
send_one_completes p msg_id bytes (l ∷ looks) fits good enough =
    let total = chunk_count (length bytes) in
    let exact = chunk_count_exact (length bytes) fits in
    let (left, done, spent) =
      send_loop-good p bytes msg_id total total 0 looks good.1 (omega arith)
        (omega (arith, exact)) in
    let result = ends p msg_id bytes l looks left good.0 done in
    (
      left,
      result,
      SentOf-ok (frames_of msg_id bytes) _ left (send_one-SentOf p msg_id bytes (l ∷ looks) fits)
          result,
      omega (arith, spent),
    )
