-- ===== src/Native/Link/Transfer.antt =====
-- From the sender's chunks to the receiver's message.
use mathlib.Core.Path.{subst}
use lobbylink.Base.{
  get_elem?-replicate, lt→leb, ℕ, zero, suc, ◌+◌, ◌-◌, ◌^◌, ◌≤◌, ◌<◌, ◌≡◌, refl, sym, ap, ◌∙◌, List,
  [], ◌∷◌, ◌++◌, Option, none, some, length, get_elem?, replicate, length-replicate,
  get_elem?-set_ne, length-set, arith, All, ==-refl,
}
use lobbylink.Base.Outcome.{Outcome, ok, err, panic, ◌>>=◌}
use lobbylink.Framing.{
  Frame, make_frame, chunk_count, chunk_payload, max_reliable_message, max_reassembly_chunks,
}
use lobbylink.Framing.RoundTrip.{parse_frame-make_frame}
use lobbylink.Framing.Chunks.{chunk_count_exact}
use lobbylink.Reassembly.{Reassembler, new, push, feed, tagged, reassembly_timeout_ms}
use lobbylink.Reassembly.Counters.{present-replicate, present, present-set}
use lobbylink.Reassembly.Slots.{concat, set_once, set_once_free}
use lobbylink.Reassembly.Feed.{feed-expected}
use lobbylink.Reassembly.Watching.{Message, IsArrival, expected, of_id}
use lobbylink.Native.Receive.{receive, receive_all, message_of}
use lobbylink.Native.Link.{Look, send_one}
use lobbylink.Native.Link.Chunks.{
  chunk, chunks_from, length-chunks_from, get_elem?-chunks_from, length-chunk, concat_all,
}
use lobbylink.Native.Link.Frames.{frames_from, frames_of, SentOf, send_one-SentOf}

-- Buffers or frames with the times at which they arrive.
pub stamp {ℓ} : {A : Type ℓ} → List A → List ℕ → List (A × ℕ)
stamp [] times = []
stamp (x ∷ xs) [] = []
stamp (x ∷ xs) (t ∷ times) = (x, t) ∷ stamp xs times

module _ (msg_id total : ℕ) (bytes : List ℕ) where
  frame_at : ℕ → Frame
  frame_at seq = record {
    msg_id = msg_id;
    seq = seq;
    total = total;
    payload = chunk chunk_payload bytes seq;
  }

  parsed_from : ℕ → ℕ → List Frame
  parsed_from zero seq = []
  parsed_from (suc rounds) seq = frame_at seq ∷ parsed_from rounds (suc seq)

  message : ℕ → Message
  message t0 = record { id = msg_id; chunks = chunks_from chunk_payload bytes total 0; from = t0 }

  module _ (small_id : msg_id < 2 ^ 32) (few : total ≤ max_reassembly_chunks) where
    receive-frame_at :
        (r : Reassembler) (seq now : ℕ)
        → seq < total
        → receive r (make_frame msg_id seq total (chunk chunk_payload bytes seq)) now
          ≡ push r (frame_at seq) now
    unfolding receive frame_at
    receive-frame_at r seq now h = rw (
      parse_frame-make_frame msg_id seq total (chunk chunk_payload bytes seq) small_id h few
          (omega (arith, length-chunk chunk_payload bytes seq)),
      receive,
    )

    -- The result of `feed`, with the messages of this sender's id alone.
    mapped : Outcome ⊥ (Reassembler × List (ℕ × List ℕ)) → Outcome ⊥ (Reassembler × List (List ℕ))
    mapped (ok (r, outs)) = ok (r, of_id msg_id outs)
    mapped (err e) = err e
    mapped panic = panic

    mapped_tail :
        (out : Option (List ℕ)) (q : Outcome ⊥ (Reassembler × List (ℕ × List ℕ)))
        → (mapped q >>= λ (r', outs). ok (r', message_of out ++ outs))
          ≡ mapped (q >>= λ (r', outs). ok (r', tagged msg_id out ++ outs))
    unfolding mapped of_id
    mapped_tail none (ok (r, outs)) = refl
    mapped_tail (some m) (ok (r, outs)) = rw (==-refl msg_id)
    mapped_tail out (err e) = refl
    mapped_tail out panic = refl

    -- On this sender's frames, `receive_all` is `feed`.
    receive_all-feed :
        (rounds seq : ℕ) (r : Reassembler) (times : List ℕ)
        → seq + rounds ≤ total
        → receive_all r (stamp (frames_from msg_id total bytes rounds seq) times)
          ≡ mapped (feed r (stamp (parsed_from rounds seq) times))
    unfolding stamp parsed_from frames_from receive_all feed mapped of_id frame_at
    receive_all-feed zero seq r times h = refl
    receive_all-feed (suc rounds) seq r [] h = refl
    receive_all-feed (suc rounds) seq r (t ∷ times) h =
        rw (receive-frame_at r seq t (omega arith)) (
          pushed (push r (frame_at seq) t)
            (λ r'. receive_all-feed rounds (suc seq) r' times (omega arith)))
      where
        pushed :
            (p : Outcome ⊥ (Reassembler × Option (List ℕ)))
            → ((r' : Reassembler)
                → receive_all r' (stamp (frames_from msg_id total bytes rounds (suc seq)) times)
                  ≡ mapped (feed r' (stamp (parsed_from rounds (suc seq)) times)))
            → (do
              (r', out) ← p
              (r'', outs) ←
                  receive_all r' (stamp (frames_from msg_id total bytes rounds (suc seq)) times)
              ok (r'', message_of out ++ outs))
              ≡ mapped (do
                (r', out) ← p
                (r'', outs) ← feed r' (stamp (parsed_from rounds (suc seq)) times)
                ok (r'', tagged msg_id out ++ outs))
        pushed (ok (r', out)) later =
            ap (λ q. q >>= λ (r'', outs). ok (r'', message_of out ++ outs)) (later r')
            ∙ mapped_tail out (feed r' (stamp (parsed_from rounds (suc seq)) times))
        pushed (err e) later = absurd e
        pushed panic later = refl

    arrivals_own :
        (t0 rounds seq : ℕ) (times : List ℕ)
        → seq + rounds ≤ total
        → All (λ t. (t0 ≤ t) × (t ≤ t0 + reassembly_timeout_ms)) times
        → All (IsArrival (message t0)) (stamp (parsed_from rounds seq) times)
    unfolding stamp parsed_from message frame_at
    arrivals_own t0 zero seq times h w = tt
    arrivals_own t0 (suc rounds) seq [] h w = tt
    arrivals_own t0 (suc rounds) seq (t ∷ times) h w = (
      record {
        acceptable = record {
          total_pos = omega arith;
          total_le = few;
          seq_lt = omega arith;
          payload_le = omega (arith, length-chunk chunk_payload bytes seq);
        };
        after = w.0.0;
        before = w.0.1;
        own = λ e. (
          sym (length-chunks_from chunk_payload bytes total 0),
          get_elem?-chunks_from chunk_payload bytes total 0 seq (omega arith)
              ∙ ap (λ k. some (chunk chunk_payload bytes k))
                  (let z : 0 + seq ≡ seq = omega arith in z),
        );
      },
      arrivals_own t0 rounds (suc seq) times (omega arith) w.1,
    )

    present-next :
        (os : List (Option (List ℕ))) (seq : ℕ)
        → present os ≡ seq
        → get_elem? os seq ≡ some none
        → present (set_once os seq (chunk chunk_payload bytes seq)) ≡ suc seq
    present-next os seq hp free =
        ap present (set_once_free os seq (chunk chunk_payload bytes seq) free)
        ∙ present-set os seq (chunk chunk_payload bytes seq) free
        ∙ ap suc hp

    -- The last frame, and only it, brings the message out.
    expected_in_order :
        (t0 rounds seq : ℕ) (times : List ℕ) (os : List (Option (List ℕ)))
        → seq + suc rounds ≡ total
        → length times ≡ suc rounds
        → length os ≡ total
        → present os ≡ seq
        → ((i : ℕ) → seq ≤ i → i < total → get_elem? os i ≡ some none)
        → expected (message t0) os (stamp (parsed_from (suc rounds) seq) times)
          ≡ concat (message t0).chunks ∷ []
    unfolding stamp parsed_from message frame_at expected
    expected_in_order t0 rounds seq [] os h ht ho hp free = absurd (omega arith)
    expected_in_order t0 zero seq (t ∷ times) os h ht ho hp free = ground (
      arith,
      length-chunks_from chunk_payload bytes total 0,
      present-next os seq hp (free seq (omega arith) (omega arith)),
    )
    expected_in_order t0 (suc rounds) seq (t ∷ times) os h ht ho hp free =
        let taken = free seq (omega arith) (omega arith) in
        let c = chunk chunk_payload bytes seq in
        let os' = set_once os seq c in
        let next = present-next os seq hp taken in
        let filled = set_once_free os seq c taken in
        rw
          (
            ==-refl msg_id,
            lt→leb (length (message t0).chunks) (present os')
                (omega (arith, next, length-chunks_from chunk_payload bytes total 0)),
          )
          (expected_in_order t0 rounds (suc seq) times os' (omega arith) (omega arith)
            (ap length filled ∙ length-set os seq (some c) ∙ ho) next
            (λ i lo hi.
              ap (λ x. get_elem? x i) filled
              ∙ get_elem?-set_ne os seq i (some c) (omega arith)
              ∙ free i (omega arith) hi))

    expected_all :
        (t0 : ℕ) (times : List ℕ)
        → 1 ≤ total
        → length times ≡ total
        → expected
            (message t0)
            (replicate (length (message t0).chunks) none)
            (stamp (parsed_from total 0) times)
          ≡ concat (message t0).chunks ∷ []
    unfolding message
    expected_all t0 times pos ht =
        ap (λ n. expected (message t0) os (stamp (parsed_from n 0) times)) split
        ∙ expected_in_order t0 (total - 1) 0 times os (omega arith) (omega arith)
            (length-replicate (length (message t0).chunks) none ∙ size)
            (present-replicate (length (message t0).chunks))
            (λ i lo hi.
              get_elem?-replicate (length (message t0).chunks) none i (omega (arith, size)))
      where
        os : List (Option (List ℕ))
        os = replicate (length (message t0).chunks) none

        size : length (message t0).chunks ≡ total
        size = length-chunks_from chunk_payload bytes total 0

        split : total ≡ suc (total - 1)
        split = omega arith

-- A reliable message of at most 16 MiB that is sent to the end, and whose frames arrive in order
-- within 30 seconds at a peer with a fresh reassembler, comes out there whole, once, and alone; no
-- frame is refused and nothing panics.
pub receive_all-send_one :
    (player_id msg_id : ℕ) (bytes : List ℕ) (looks looks' : List Look) (t0 : ℕ) (times : List ℕ)
    → length bytes ≤ max_reliable_message
    → msg_id < 2 ^ 32
    → (send_one player_id msg_id bytes looks).result ≡ ok looks'
    → length times ≡ chunk_count (length bytes)
    → All (λ t. (t0 ≤ t) × (t ≤ t0 + reassembly_timeout_ms)) times
    → (r : Reassembler) × (receive_all new
          (stamp (send_one player_id msg_id bytes looks).frames times)
        ≡ ok (r, bytes ∷ []))
unfolding message frames_of mapped
receive_all-send_one p msg_id bytes looks looks' t0 times fits small done ht window =
    let total = chunk_count (length bytes) in
    let exact = chunk_count_exact (length bytes) fits in
    let m = message msg_id total bytes t0 in
    let whole = concat_all chunk_payload bytes total exact.2 in
    let (r, outs, fed, spec, valid) =
      feed-expected m (stamp (parsed_from msg_id total bytes total 0) times)
        (omega (arith, ap length whole))
        (arrivals_own msg_id total bytes small exact.1 t0 total 0 times (omega arith) window) in
    let sent =
      subst (λ x. SentOf (frames_of msg_id bytes) ((send_one p msg_id bytes looks).frames, x)) done
        (send_one-SentOf p msg_id bytes looks fits) in
    (
      r,
      ap (λ fs. receive_all new (stamp fs times)) sent
          ∙ receive_all-feed msg_id total bytes small exact.1 total 0 new times (omega arith)
          ∙ ap (mapped msg_id total bytes small exact.1) fed
          ∙ ap (λ x. ok (r, x))
              (spec
                ∙ expected_all msg_id total bytes small exact.1 t0 times exact.0 ht
                ∙ ap (λ x. x ∷ []) whole),
    )
