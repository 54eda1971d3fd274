-- ===== src/Framing/Chunks.antt =====
-- `chunk_count`: how many frames a message takes.
use lobbylink.Base.{ℕ, ◌-◌, ◌*◌, ◌≤◌, arith}
use lobbylink.Framing.{chunk_count, chunk_payload, max_reliable_message, max_reassembly_chunks}

-- For every sendable length the count is at least 1 and within what a receiver accepts, its chunks
-- hold the message, and one chunk fewer would not (unless the message is empty).
pub chunk_count_exact :
    (len : ℕ)
    → len ≤ max_reliable_message
    → (1 ≤ chunk_count len)
      × (chunk_count len ≤ max_reassembly_chunks)
      × (len ≤ chunk_count len * chunk_payload)
      × ((chunk_count len - 1) * chunk_payload ≤ len - 1)
unfolding chunk_count
chunk_count_exact len h = ground arith
