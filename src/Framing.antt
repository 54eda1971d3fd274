-- ===== src/Framing.antt =====
-- clients/rust/src/core/framing.rs: the frames of the reliable channel. A byte slice is a list of
-- numbers below 256; a `u32` is a number below 2 ^ 32; `usize` has 64 bits, which no length here
-- reaches.
pub mod RoundTrip
pub mod Sound
pub mod Chunks
mod Examples
use lobbylink.Base.{
  ℕ, ◌+◌, ◌-◌, ◌*◌, ◌/◌, ◌%◌, ◌^◌, List, [], ◌∷◌, ◌++◌, ltb, leb, ◌==◌, if◌then◌else◌, ◌&&◌, not,
  length, drop,
}
use lobbylink.Base.Words.{u32_to_be_bytes, u32_from_be_bytes}
use lobbylink.Base.Outcome.{Outcome, ok, ◌>>=◌, ◌>>◌, reject_if, index}

abbrev pub frame_magic : ℕ
frame_magic = 0x4c

abbrev pub frame_version : ℕ
frame_version = 0x01

abbrev pub frame_header_len : ℕ
frame_header_len = 18

abbrev pub chunk_payload : ℕ
chunk_payload = 16 * 1024

abbrev pub max_frame_payload : ℕ
max_frame_payload = 64 * 1024

abbrev pub max_reliable_message : ℕ
max_reliable_message = 16 * 1024 * 1024

abbrev pub max_reassembly_chunks : ℕ
max_reassembly_chunks = 4096

unfoldable pub make_frame : ℕ → ℕ → ℕ → List ℕ → List ℕ
make_frame msg_id seq total payload =
    frame_magic
    ∷ frame_version
    ∷ (u32_to_be_bytes msg_id
        ++ (u32_to_be_bytes seq
            ++ (u32_to_be_bytes total ++ (u32_to_be_bytes (length payload % 2 ^ 32) ++ payload))))

-- `usize::div_ceil`
abbrev pub div_ceil : ℕ → ℕ → ℕ
div_ceil n d = if n % d == 0 then n / d else n / d + 1

unfoldable pub chunk_count : ℕ → ℕ
chunk_count len = if len == 0 then 1 else div_ceil len chunk_payload % 2 ^ 32

pub record Frame : Type 0 where
  pub msg_id : ℕ
  pub seq : ℕ
  pub total : ℕ
  pub payload : List ℕ

-- The error strings of `parse_frame`, by name.
pub data FrameError : Type 0 where
  shorter_than_header bad_magic unsupported_version bad_total : FrameError
  seq_out_of_range payload_too_large payload_length_mismatch : FrameError

unfoldable pub be_u32 : List ℕ → ℕ → Outcome FrameError ℕ
be_u32 buf off = do
  a ← index buf off
  b ← index buf (off + 1)
  c ← index buf (off + 2)
  d ← index buf (off + 3)
  ok (u32_from_be_bytes a b c d)

unfoldable pub parse_frame : List ℕ → Outcome FrameError Frame
unfolding be_u32
parse_frame buf = do
  reject_if (ltb (length buf) frame_header_len) shorter_than_header
  magic ← index buf 0
  reject_if (not (magic == frame_magic)) bad_magic
  version ← index buf 1
  reject_if (not (version == frame_version)) unsupported_version
  msg_id ← be_u32 buf 2
  seq ← be_u32 buf 6
  total ← be_u32 buf 10
  payload_len ← be_u32 buf 14
  reject_if (not (leb 1 total && leb total max_reassembly_chunks)) bad_total
  reject_if (leb total seq) seq_out_of_range
  reject_if (ltb max_frame_payload payload_len) payload_too_large
  reject_if (not (payload_len == length buf - frame_header_len)) payload_length_mismatch
  ok (record { msg_id = msg_id; seq = seq; total = total; payload = drop frame_header_len buf })
