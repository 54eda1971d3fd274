-- ===== src/Native/Link/Frames.antt =====
-- The frames that a send hands to the transport are the frames of the message's chunks, in order.
use mathlib.Core.Path.{ap₂}
use lobbylink.Base.{
  le→leb, ℕ, zero, suc, ◌+◌, ◌-◌, ◌*◌, ◌≤◌, ◌≡◌, ◌≢◌, refl, ap, ◌∙◌, min, List, [], ◌∷◌, ◌++◌,
  length, drop, length-drop, arith,
}
use lobbylink.Base.Outcome.{ok, err, panic}
use lobbylink.Framing.{make_frame, chunk_count, chunk_payload, max_reliable_message}
use lobbylink.Framing.Chunks.{chunk_count_exact}
use lobbylink.Native.Link.{
  Look, Wait, wait_reliable_open, drain_loop, wait_drain, slice, transmit, prepare, send_loop,
  send_one,
}
use lobbylink.Native.Link.Chunks.{chunk, take-min, take_eq}

unfoldable pub frames_from : ℕ → ℕ → List ℕ → ℕ → ℕ → List (List ℕ)
frames_from msg_id total bytes zero seq = []
frames_from msg_id total bytes (suc rounds) seq =
    make_frame msg_id seq total (chunk chunk_payload bytes seq)
    ∷ frames_from msg_id total bytes rounds (suc seq)

-- All frames of a message.
unfoldable pub frames_of : ℕ → List ℕ → List (List ℕ)
frames_of msg_id bytes =
    frames_from msg_id (chunk_count (length bytes)) bytes (chunk_count (length bytes)) 0

drain_loop-ne-panic : (p : ℕ) (looks : List Look) → drain_loop p looks ≢ panic
unfolding drain_loop
drain_loop-ne-panic p [] = λ e. cc
drain_loop-ne-panic p (l ∷ looks) = ground (arith, drain_loop-ne-panic p looks)

wait_drain-ne-panic : (p : ℕ) (looks : List Look) → wait_drain p looks ≢ panic
unfolding wait_drain
wait_drain-ne-panic p [] = λ e. cc
wait_drain-ne-panic p (l ∷ looks) = ground (arith, drain_loop-ne-panic p looks)

pub slice-chunk :
    (size : ℕ) (bytes : List ℕ) (seq : ℕ)
    → seq * size ≤ length bytes
    → slice bytes (seq * size) (min (seq * size + size) (length bytes)) ≡ ok (chunk size bytes seq)
unfolding slice chunk
slice-chunk size bytes seq h =
    rw (le→leb start end (omega arith), le→leb end (length bytes) (omega arith))
      (ap ok (
        take_eq (end - start) (min size (length rest)) rest (omega (arith, length-drop start bytes))
        ∙ take-min size (length rest) rest (omega arith)))
  where
    start : ℕ
    start = seq * size

    end : ℕ
    end = min (start + size) (length bytes)

    rest : List ℕ
    rest = drop start bytes

-- What a round can come to: an error, or the frame of its chunk.
abbrev Prepared : ℕ → List ℕ → ℕ → ℕ → Wait (List ℕ × List Look) → Type 0
Prepared msg_id bytes total seq (ok (frame, looks)) =
    frame ≡ make_frame msg_id seq total (chunk chunk_payload bytes seq)
Prepared msg_id bytes total seq (err e) = Unit {0}
Prepared msg_id bytes total seq panic = ⊥

prepare-Prepared :
    (p : ℕ) (bytes : List ℕ) (msg_id total seq : ℕ) (looks : List Look)
    → seq * chunk_payload ≤ length bytes
    → Prepared msg_id bytes total seq (prepare p bytes msg_id total seq looks)
unfolding prepare
prepare-Prepared p bytes msg_id total seq [] h = tt
prepare-Prepared p bytes msg_id total seq (l ∷ looks) h =
    ground (arith, wait_drain-ne-panic p looks, slice-chunk chunk_payload bytes seq h)

-- The frames sent so far and those still to come are the whole list; all are sent if the loop ends.
abbrev pub SentOf : List (List ℕ) → List (List ℕ) × Wait (List Look) → Type 0
SentOf all (sent, ok looks) = sent ≡ all
SentOf all (sent, err e) = (rest : List (List ℕ)) × (sent ++ rest ≡ all)
SentOf all (sent, panic) = ⊥

SentOf-cons :
    (f g : List ℕ) (all : List (List ℕ)) (r : List (List ℕ) × Wait (List Look))
    → g ≡ f
    → SentOf all r
    → SentOf (f ∷ all) (g ∷ r.0, r.1)
SentOf-cons f g all (sent, ok looks) e h = ap₂ ◌∷◌ e h
SentOf-cons f g all (sent, err x) e (rest, h) = (rest, ap₂ ◌∷◌ e h)
SentOf-cons f g all (sent, panic) e h = absurd h

wait_reliable_open-ne-panic : (p : ℕ) (looks : List Look) → wait_reliable_open p looks ≢ panic
unfolding wait_reliable_open
wait_reliable_open-ne-panic p [] = λ e. cc
wait_reliable_open-ne-panic p (l ∷ looks) = ground (arith, wait_reliable_open-ne-panic p looks)

transmit-ne-panic : (p : ℕ) (looks : List Look) → transmit p looks ≢ panic
unfolding transmit
transmit-ne-panic p [] = λ e. cc
transmit-ne-panic p (l ∷ looks) = ground arith

send_loop-SentOf :
    (p : ℕ) (bytes : List ℕ) (msg_id total rounds seq : ℕ) (looks : List Look)
    → (seq + rounds - 1) * chunk_payload ≤ length bytes
    → SentOf
        (frames_from msg_id total bytes rounds seq)
        (send_loop p bytes msg_id total rounds seq looks)
unfolding send_loop frames_from
send_loop-SentOf p bytes msg_id total zero seq looks h = refl
send_loop-SentOf p bytes msg_id total (suc rounds) seq looks h =
    round (prepare p bytes msg_id total seq looks) refl
      (prepare-Prepared p bytes msg_id total seq looks (omega arith))
      (λ later. send_loop-SentOf p bytes msg_id total rounds (suc seq) later (omega arith))
  where
    Later : Type 0
    Later =
        (later : List Look)
        → SentOf (frames_from msg_id total bytes rounds (suc seq))
            (send_loop p bytes msg_id total rounds (suc seq) later)

    all : List (List ℕ)
    all = frames_from msg_id total bytes (suc rounds) seq

    sent :
        (frame : List ℕ) (looks' : List Look) (t : Wait (List Look))
        → prepare p bytes msg_id total seq looks ≡ ok (frame, looks')
        → transmit p looks' ≡ t
        → frame ≡ make_frame msg_id seq total (chunk chunk_payload bytes seq)
        → Later
        → SentOf all (send_loop p bytes msg_id total (suc rounds) seq looks)
    sent frame looks' (ok looks'') e t same later =
        rw (e, send_loop) (rw t (SentOf-cons _ frame _ _ same (later looks'')))
    sent frame looks' (err x) e t same later = rw (e, send_loop) (rw t (all, refl))
    sent frame looks' panic e t same later = absurd (transmit-ne-panic p looks' t)

    round :
        (r : Wait (List ℕ × List Look))
        → prepare p bytes msg_id total seq looks ≡ r
        → Prepared msg_id bytes total seq r
        → Later
        → SentOf all (send_loop p bytes msg_id total (suc rounds) seq looks)
    round (ok (frame, looks')) e same later =
        sent frame looks' (transmit p looks') e refl same later
    round (err x) e q later = rw (e, send_loop) (all, refl)
    round panic e q later = absurd q

-- What is true of every send of at most 16 MiB, whatever the task sees while it waits: it never
-- panics; it hands over frames of the message's chunks in order, from the first on; and it ends
-- well only when it has handed over all of them.
pub send_one-SentOf :
    (player_id msg_id : ℕ) (bytes : List ℕ) (looks : List Look)
    → length bytes ≤ max_reliable_message
    → SentOf (frames_of msg_id bytes) (
      (send_one player_id msg_id bytes looks).frames,
      (send_one player_id msg_id bytes looks).result,
    )
unfolding send_one frames_of
send_one-SentOf p msg_id bytes looks h = opened (wait_reliable_open p looks) refl
  where
    total : ℕ
    total = chunk_count (length bytes)

    all : List (List ℕ)
    all = frames_from msg_id total bytes total 0

    opened :
        (r : Wait (List Look))
        → wait_reliable_open p looks ≡ r
        → SentOf all
            ((send_one p msg_id bytes looks).frames, (send_one p msg_id bytes looks).result)
    opened (ok looks') e =
        rw (e, send_one)
          (send_loop-SentOf p bytes msg_id total total 0 looks'
            (omega (arith, chunk_count_exact (length bytes) h)))
    opened (err x) e = rw (e, send_one) (all, refl)
    opened panic e = absurd (wait_reliable_open-ne-panic p looks e)
