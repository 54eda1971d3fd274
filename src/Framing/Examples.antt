-- ===== src/Framing/Examples.antt =====
-- Frames: tests, and the theorems at concrete frames.
use lobbylink.Base.{ℕ, ◌-◌, ◌*◌, ◌^◌, ◌≤◌, ◌<◌, ◌≡◌, refl, List, [], ◌∷◌, arith}
use lobbylink.Base.Outcome.{ok, err}
use lobbylink.Framing.{
  Frame, make_frame, parse_frame, chunk_count, chunk_payload, max_reassembly_chunks,
  shorter_than_header,
}
use lobbylink.Framing.RoundTrip.{parse_frame-make_frame}
use lobbylink.Framing.Sound.{IsAcceptable, parse_frame-IsAcceptable, make_frame-parse_frame}
use lobbylink.Framing.Chunks.{chunk_count_exact}

abbrev frame_bytes : List ℕ
frame_bytes =
    0x4c ∷ 1 ∷ 0 ∷ 0 ∷ 1 ∷ 2 ∷ 0 ∷ 0 ∷ 0 ∷ 1 ∷ 0 ∷ 0 ∷ 0 ∷ 3 ∷ 0 ∷ 0 ∷ 0 ∷ 2 ∷ 10 ∷ 20 ∷ []

abbrev frame : Frame
frame = record { msg_id = 258; seq = 1; total = 3; payload = 10 ∷ 20 ∷ [] }

make_frame_bytes : make_frame 258 1 3 (10 ∷ 20 ∷ []) ≡ frame_bytes
unfolding make_frame
make_frame_bytes = refl

parse_frame_bytes : parse_frame frame_bytes ≡ ok frame
unfolding parse_frame
parse_frame_bytes = refl

parse_frame_short : parse_frame (0x4c ∷ 1 ∷ []) ≡ err shorter_than_header
unfolding parse_frame
parse_frame_short = refl

chunk_count_edges : (chunk_count 0 ≡ 1) × (chunk_count 16384 ≡ 1) × (chunk_count 16385 ≡ 2)
unfolding chunk_count
chunk_count_edges = (refl, refl, refl)

parse_frame-make_frame_example : parse_frame (make_frame 258 1 3 (10 ∷ 20 ∷ [])) ≡ ok frame
parse_frame-make_frame_example =
    parse_frame-make_frame 258 1 3 (10 ∷ 20 ∷ []) (omega arith) (omega arith) (omega arith)
      (omega arith)

parse_frame-IsAcceptable_example : IsAcceptable frame
parse_frame-IsAcceptable_example = parse_frame-IsAcceptable frame_bytes frame parse_frame_bytes

make_frame-parse_frame_example : (make_frame 258 1 3 (10 ∷ 20 ∷ []) ≡ frame_bytes) × (258 < 2 ^ 32)
make_frame-parse_frame_example =
    make_frame-parse_frame frame_bytes frame (ground arith) parse_frame_bytes

chunk_count_exact_example :
    (1 ≤ chunk_count 16385)
    × (chunk_count 16385 ≤ max_reassembly_chunks)
    × (16385 ≤ chunk_count 16385 * chunk_payload)
    × ((chunk_count 16385 - 1) * chunk_payload ≤ 16385 - 1)
chunk_count_exact_example = chunk_count_exact 16385 (omega arith)
