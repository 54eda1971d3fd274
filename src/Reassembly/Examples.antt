-- ===== src/Reassembly/Examples.antt =====
-- Reassembly: tests, and the theorems at one message of two chunks.
use lobbylink.Base.{
  ℕ, ◌≤◌, ◌≡◌, refl, List, [], ◌∷◌, Option, none, some, length, replicate, All, arith,
}
use lobbylink.Base.Map
use lobbylink.Base.Outcome.{ok}
use lobbylink.Framing.{Frame, max_reliable_message}
use lobbylink.Framing.Sound.{IsAcceptable}
use lobbylink.Reassembly.{
  Reassembler, new, prune, push, drop_resized, entry_for, store, finish, feed,
}
use lobbylink.Reassembly.Invariant.{push-IsValid}
use lobbylink.Reassembly.Counters.{present, IsValid, new-IsValid}
use lobbylink.Reassembly.Delivery.{Pushed, push-Pushed, push-others}
use lobbylink.Reassembly.Slots.{concat, set_once, pending, Agrees}
use lobbylink.Reassembly.Feed.{feed-expected}
use lobbylink.Reassembly.Watching.{Message, IsArrival, expected, of_id}

abbrev message : Message
message = record { id = 5; chunks = (1 ∷ []) ∷ (2 ∷ 3 ∷ []) ∷ []; from = 100 }

abbrev first_chunk : Frame
first_chunk = record { msg_id = 5; seq = 0; total = 2; payload = 1 ∷ [] }

abbrev second_chunk : Frame
second_chunk = record { msg_id = 5; seq = 1; total = 2; payload = 2 ∷ 3 ∷ [] }

abbrev other : Frame
other = record { msg_id = 9; seq = 0; total = 3; payload = 7 ∷ [] }

-- Out of order, with a repeat and a frame of another message between.
abbrev arrivals : List (Frame × ℕ)
arrivals = (second_chunk, 100) ∷ (other, 150) ∷ (second_chunk, 200) ∷ (first_chunk, 30_100) ∷ []

-- The message comes out again when both chunks come again.
expected_once : expected message (none ∷ none ∷ []) arrivals ≡ (1 ∷ 2 ∷ 3 ∷ []) ∷ []
unfolding expected present set_once concat
expected_once = refl

first_chunk-IsAcceptable : IsAcceptable first_chunk
first_chunk-IsAcceptable = record {
  total_pos = omega arith;
  total_le = omega arith;
  seq_lt = omega arith;
  payload_le = omega arith;
}

second_chunk-IsAcceptable : IsAcceptable second_chunk
second_chunk-IsAcceptable = record {
  total_pos = omega arith;
  total_le = omega arith;
  seq_lt = omega arith;
  payload_le = omega arith;
}

other-IsAcceptable : IsAcceptable other
other-IsAcceptable = record {
  total_pos = omega arith;
  total_le = omega arith;
  seq_lt = omega arith;
  payload_le = omega arith;
}

first_push :
    push new second_chunk 100
    ≡ ok (
      record {
        inflight =
            (
              5,
              record {
                total = 2;
                chunks = none ∷ some (2 ∷ 3 ∷ []) ∷ [];
                received = 1;
                bytes = 2;
                started_at_ms = 100;
              },
            )
            ∷ [];
      },
      none,
    )
unfolding push entry_for Map.get drop_resized prune Map.retain store finish Map.insert Map.remove
first_push = refl

abbrev after_first : Reassembler
after_first = record {
  inflight =
      (
        5,
        record {
          total = 2;
          chunks = none ∷ some (2 ∷ 3 ∷ []) ∷ [];
          received = 1;
          bytes = 2;
          started_at_ms = 100;
        },
      )
      ∷ [];
}

push-IsValid_example :
    (r' : Reassembler) × (out : Option (List ℕ)) × (push new second_chunk 100 ≡ ok (r', out))
    × IsValid r'
push-IsValid_example = push-IsValid new second_chunk 100 new-IsValid second_chunk-IsAcceptable

empty_slots-Agrees : Agrees message.chunks (pending (prune new 100).inflight 5 2)
unfolding pending Map.get prune Map.retain
empty_slots-Agrees = tt

message_fits : length (concat message.chunks) ≤ max_reliable_message
unfolding concat
message_fits = omega arith

push-Pushed_example :
    (r' : Reassembler) × (out : Option (List ℕ)) × (push new second_chunk 100 ≡ ok (r', out))
    × Pushed message.chunks second_chunk 100 new r' out
    × IsValid r'
push-Pushed_example =
    push-Pushed message.chunks new second_chunk 100 new-IsValid second_chunk-IsAcceptable refl refl
      message_fits empty_slots-Agrees

push-others_example : Map.get after_first.inflight 9 ≡ Map.get (prune new 100).inflight 9
push-others_example =
    push-others new second_chunk 100 9 after_first none (λ e. absurd (omega (arith, e))) first_push

again-IsArrival : (now : ℕ) → 100 ≤ now → now ≤ 30_100 → IsArrival message (second_chunk, now)
again-IsArrival now after before = record {
  acceptable = second_chunk-IsAcceptable;
  after = after;
  before = before;
  own = λ e. (refl, refl);
}

arrivals-IsArrival : All (IsArrival message) arrivals
arrivals-IsArrival = (
  again-IsArrival 100 (omega arith) (omega arith),
  (
    record {
      acceptable = other-IsAcceptable;
      after = omega arith;
      before = omega arith;
      own = λ e. absurd (omega (arith, e));
    },
    (
      again-IsArrival 200 (omega arith) (omega arith),
      (
        record {
          acceptable = first_chunk-IsAcceptable;
          after = omega arith;
          before = omega arith;
          own = λ e. (refl, refl);
        },
        tt,
      ),
    ),
  ),
)

feed-expected_example :
    (r' : Reassembler) × (outs : List (ℕ × List ℕ)) × (feed new arrivals ≡ ok (r', outs))
    × (of_id 5 outs ≡ expected message (replicate 2 none) arrivals)
    × IsValid r'
feed-expected_example = feed-expected message arrivals message_fits arrivals-IsArrival
