-- ===== src/Framing/RoundTrip.antt =====
-- `parse_frame` reads back what `make_frame` wrote, for every frame that a receiver accepts.
use lobbylink.Base.{ℕ, ◌%◌, ◌^◌, ◌≤◌, ◌<◌, ◌≡◌, List, length, arith}
use lobbylink.Base.Words.{from-to_be_bytes}
use lobbylink.Base.Outcome.{ok}
use lobbylink.Framing.{make_frame, parse_frame, max_frame_payload, max_reassembly_chunks}

-- Parsing a frame with in-range fields gives these fields back.
pub parse_frame-make_frame :
    (msg_id seq total : ℕ) (payload : List ℕ)
    → msg_id < 2 ^ 32
    → seq < total
    → total ≤ max_reassembly_chunks
    → length payload ≤ max_frame_payload
    → parse_frame (make_frame msg_id seq total payload)
      ≡ ok (record { msg_id = msg_id; seq = seq; total = total; payload = payload })
unfolding make_frame parse_frame
parse_frame-make_frame msg_id seq total payload hm hs ht hp = ground (
  arith,
  from-to_be_bytes msg_id hm,
  from-to_be_bytes seq (omega arith),
  from-to_be_bytes total (omega arith),
  from-to_be_bytes (length payload % 2 ^ 32) (omega arith),
)
