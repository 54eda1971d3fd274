-- ===== src/Native/Receive.antt =====
-- clients/rust/src/native/actor.rs, the branch `Internal::Reliable` of `handle_internal`: what a
-- received buffer does to the reassembler of its peer, and the message that comes out, if any.
use lobbylink.Base.{ℕ, List, [], ◌∷◌, ◌++◌, Option, none}
use lobbylink.Base.Outcome.{Outcome, ok, err, panic, ◌>>=◌}
use lobbylink.Framing.{parse_frame}
use lobbylink.Reassembly.{Reassembler, push}

unfoldable pub receive : Reassembler → List ℕ → ℕ → Outcome ⊥ (Reassembler × Option (List ℕ))
receive r bytes now_ms = elim (parse_frame bytes) [
  | ok frame ↦ push r frame now_ms
  | err reason ↦ ok (r, none)
  | panic ↦ panic
]

-- The messages that come out of a run of received buffers.
abbrev pub message_of : Option (List ℕ) → List (List ℕ)
message_of o = elim o [ none ↦ [] | Option.some message ↦ message ∷ [] ]

unfoldable pub receive_all :
    Reassembler → List (List ℕ × ℕ) → Outcome ⊥ (Reassembler × List (List ℕ))
receive_all r [] = ok (r, [])
receive_all r ((bytes, now_ms) ∷ rest) = do
  (r', out) ← receive r bytes now_ms
  (r'', outs) ← receive_all r' rest
  ok (r'', message_of out ++ outs)
