-- ===== src/Framing/Sound.antt =====
-- What `parse_frame` says of any buffer: it never reads out of bounds, and what it accepts is a
-- frame that `make_frame` could have written.
use lobbylink.Base.Words.{IsByte, to-from_be_bytes, from_be_bytes-lt}
use lobbylink.Base.{All, ◌^◌, ℕ, ◌≤◌, ◌<◌, ◌≡◌, ◌≢◌, List, ◌∷◌, length, arith}
use lobbylink.Base.Outcome.{ok, panic}
use lobbylink.Framing.{make_frame, Frame, parse_frame, max_frame_payload, max_reassembly_chunks}

-- A frame whose fields are in the ranges that a receiver accepts.
pub record IsAcceptable (f : Frame) : Type 0 where
  pub total_pos : 1 ≤ f.total
  pub total_le : f.total ≤ max_reassembly_chunks
  pub seq_lt : f.seq < f.total
  pub payload_le : length f.payload ≤ max_frame_payload

-- Accepted frames are in range.
pub parse_frame-IsAcceptable : (buf : List ℕ) (f : Frame) → parse_frame buf ≡ ok f → IsAcceptable f
unfolding parse_frame
parse_frame-IsAcceptable
      (m ∷ v ∷ a ∷ b ∷ c ∷ d ∷ e ∷ g ∷ h ∷ i ∷ j ∷ k ∷ l ∷ n ∷ o ∷ p ∷ q ∷ r ∷ rest) f eq =
    ground arith
parse_frame-IsAcceptable _ f eq = cc

-- No buffer makes the parser index out of bounds.
pub parse_frame-ne-panic : (buf : List ℕ) → parse_frame buf ≢ panic
unfolding parse_frame
parse_frame-ne-panic
      (m ∷ v ∷ a ∷ b ∷ c ∷ d ∷ e ∷ g ∷ h ∷ i ∷ j ∷ k ∷ l ∷ n ∷ o ∷ p ∷ q ∷ r ∷ rest) =
    ground arith
parse_frame-ne-panic _ = λ e. cc

-- The bytes of an accepted buffer are the frame that `make_frame` writes for its fields.
pub make_frame-parse_frame :
    (buf : List ℕ) (f : Frame)
    → All IsByte buf
    → parse_frame buf ≡ ok f
    → (make_frame f.msg_id f.seq f.total f.payload ≡ buf) × (f.msg_id < 2 ^ 32)
unfolding parse_frame make_frame
make_frame-parse_frame
      (m ∷ v ∷ a ∷ b ∷ c ∷ d ∷ e ∷ g ∷ h ∷ i ∷ j ∷ k ∷ l ∷ n ∷ o ∷ p ∷ q ∷ r ∷ rest) f
      (
        hm,
        (
          hv,
          (
            ha,
            (
              hb,
              (
                hc,
                (hd, (he, (hg, (hh, (hi, (hj, (hk, (hl, (hn, (ho, (hp, (hq, (hr, hrest))))))))))))),
              ),
            ),
          ),
        ),
      )
      eq =
    ground (
      arith,
      to-from_be_bytes a b c d ha hb hc hd,
      to-from_be_bytes e g h i he hg hh hi,
      to-from_be_bytes j k l n hj hk hl hn,
      to-from_be_bytes o p q r ho hp hq hr,
      from_be_bytes-lt a b c d ha hb hc hd,
    )
make_frame-parse_frame _ f hb eq = cc
