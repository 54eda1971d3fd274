-- ===== src/Native/Actor/Invariant/Ends.antt =====
-- Timers and buffers under the invariant, and what it is for a handler to end well.
use lobbylink.Base.{
  ℕ, ◌≡◌, refl, Bool, true, false, List, [], ◌∷◌, Option, none, some, ltb, ◌||◌, ◌&&◌, arith, ◌==◌,
}
use lobbylink.Base.Outcome.{Outcome, ok, err, panic}
use lobbylink.Framing.{Frame, FrameError, parse_frame}
use lobbylink.Framing.Sound.{parse_frame-IsAcceptable, parse_frame-ne-panic}
use lobbylink.Reassembly
use lobbylink.Reassembly.{Reassembler}
use lobbylink.Reassembly.Invariant.{push-IsValid}
use lobbylink.Reassembly.Counters.{IsValid}
use lobbylink.Native.Receive.{receive}
use lobbylink.Native.Actor.{Peer, Actor, Output, rebuild_timer}
use lobbylink.Native.Actor.Messages.{Internal, rebuild}
use lobbylink.Native.Actor.Invariant.{IsSound, AllAllowed, link_of}

-- A timer for a rebuild was started with this player and epoch.
unfoldable pub timer_set : ℕ → ℕ → List Output → Bool
timer_set id epoch [] = false
timer_set id epoch (rebuild_timer i e ms ∷ log) =
    (i == id) && (e == epoch) || timer_set id epoch log
timer_set id epoch (o ∷ log) = timer_set id epoch log

-- Rebuild messages come only from the timers.
abbrev pub IsFired : Actor → Internal → Type 0
IsFired a (rebuild id epoch) = timer_set id epoch a.log ≡ true
IsFired a _ = Unit

pub timer_set-up :
    (self_id id epoch : ℕ) (log : List Output)
    → AllAllowed self_id log
    → timer_set id epoch log ≡ true
    → ltb self_id id ≡ true
unfolding timer_set
timer_set-up self_id id epoch [] v h = cc
timer_set-up self_id id epoch (rebuild_timer i e ms ∷ log) v h =
    ground (arith, v.0.0, timer_set-up self_id id epoch log v.1)
timer_set-up self_id id epoch (Output.event x ∷ log) v h = timer_set-up self_id id epoch log v.1 h
timer_set-up self_id id epoch (Output.ws_send m ∷ log) v h = timer_set-up self_id id epoch log v.1 h
timer_set-up self_id id epoch (Output.ws_ping ∷ log) v h = timer_set-up self_id id epoch log v.1 h
timer_set-up self_id id epoch (Output.ws_close ∷ log) v h = timer_set-up self_id id epoch log v.1 h
timer_set-up self_id id epoch (Output.storage_clear p ∷ log) v h =
    timer_set-up self_id id epoch log v.1 h
timer_set-up self_id id epoch (Output.open_connection e s r ∷ log) v h =
    timer_set-up self_id id epoch log v.1 h
timer_set-up self_id id epoch (Output.close_connection e ∷ log) v h =
    timer_set-up self_id id epoch log v.1 h
timer_set-up self_id id epoch (Output.remote_set e s ∷ log) v h =
    timer_set-up self_id id epoch log v.1 h
timer_set-up self_id id epoch (Output.add_candidate e c ∷ log) v h =
    timer_set-up self_id id epoch log v.1 h
timer_set-up self_id id epoch (Output.query_pair i e ∷ log) v h =
    timer_set-up self_id id epoch log v.1 h
timer_set-up self_id id epoch (Output.send_datagram e b ∷ log) v h =
    timer_set-up self_id id epoch log v.1 h
timer_set-up self_id id epoch (Output.spawn_sender i ∷ log) v h =
    timer_set-up self_id id epoch log v.1 h
timer_set-up self_id id epoch (Output.queue_job i b j ∷ log) v h =
    timer_set-up self_id id epoch log v.1 h
timer_set-up self_id id epoch (Output.reply j e ∷ log) v h = timer_set-up self_id id epoch log v.1 h
timer_set-up self_id id epoch (Output.close_done ∷ log) v h =
    timer_set-up self_id id epoch log v.1 h

-- Any buffer is taken without a panic, and leaves the buffers consistent.
pub receive-IsValid :
    (r : Reassembler) (bytes : List ℕ) (now : ℕ)
    → IsValid r
    → (r' : Reassembler) × (out : Option (List ℕ)) × (receive r bytes now ≡ ok (r', out))
      × IsValid r'
unfolding receive
receive-IsValid r bytes now v = go (parse_frame bytes) refl
  where
    go :
        (parsed : Outcome FrameError Frame)
        → parse_frame bytes ≡ parsed
        → (r' : Reassembler) × (out : Option (List ℕ)) × ((elim parsed [
          | ok frame ↦ Reassembly.push r frame now
          | err reason ↦ ok (r, none)
          | panic ↦ panic
        ])
            ≡ ok (r', out))
          × IsValid r'
    go (ok frame) e = push-IsValid r frame now v (parse_frame-IsAcceptable bytes frame e)
    go (err reason) e = (r, none, refl, v)
    go panic e = absurd (parse_frame-ne-panic bytes e)

pub watched_link :
    (o : Option Peer) → (elim o [ none ↦ none | some peer ↦ some peer.link ]) ≡ link_of o
watched_link none = refl
watched_link (some peer) = refl

-- The handler ends well, in a sound actor.
abbrev pub EndsSound : ℕ → ℕ → Outcome ⊥ Actor → Type 0
EndsSound self_id max_players m = (a' : Actor) × (m ≡ ok a') × IsSound self_id max_players a'
