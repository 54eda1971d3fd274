-- ===== src/Native/Actor/Failures/Runs.antt =====
-- The rebuilds of a connection over runs of the loop.
use mathlib.Core.Path.{subst}
use lobbylink.Base.{
  ℕ, ◌+◌, ◌≤◌, ◌≡◌, ◌∙◌, ap, sym, if◌then◌else◌, Bool, false, List, [], ◌∷◌, ◌++◌, some, arith,
  if_both, not, All, length, length-append, min, ◌&&◌,
}
use lobbylink.Base.Map
use lobbylink.Base.Map.{get-insert}
use lobbylink.Base.Outcome.{Outcome, ok, err, panic, >>=_cases}
use lobbylink.Native.Actor.{Rtc, Actor, Peer}
use lobbylink.Native.Actor.Messages.{rebuilds, count_failure, handle_peer_failure, handle_internal}
use lobbylink.Native.Actor.Loop.{
  shutdown, Arrival, tick, close, cmd, cmds_end, internal, Loop, round, run,
}
use lobbylink.Native.Actor.Unseen.{delays, teardown_peers-IsUnseen}
use lobbylink.Native.Actor.Failures.{backoff, length-backoff, IsBackedOff, unseen-IsBackedOff}
use lobbylink.Native.Actor.Failures.Handlers.{
  is_reset, EndsBackedOff, handle_internal-IsBackedOff, handle_cmd-IsBackedOff,
}

abbrev pub forgets : ℕ → Arrival → Bool
forgets id (internal i) = is_reset id i
forgets id _ = false

module _ (id : ℕ) (earlier : List ℕ) where
  shutdown-IsBackedOff :
      (a : Actor) → IsBackedOff id earlier a → IsBackedOff id earlier (shutdown a)
  unfolding shutdown delays
  shutdown-IsBackedOff a v = unseen-IsBackedOff id earlier _ _ (teardown_peers-IsUnseen _) v

  abbrev LoopBackedOff : Outcome ⊥ Loop → Type 0
  LoopBackedOff (ok next) = IsBackedOff id earlier next.actor
  LoopBackedOff (err e) = Unit
  LoopBackedOff panic = Unit

  round-IsBackedOff :
      (a : Actor) (signaling : Bool) (rtc : Rtc) (arrival : Arrival)
      → forgets id arrival ≡ false
      → IsBackedOff id earlier a
      → LoopBackedOff (round a signaling rtc arrival)
  unfolding round delays
  round-IsBackedOff a signaling rtc (tick sent) other v =
      if_both (λ (l : Loop). IsBackedOff id earlier l.actor)
        (a.keepalive && signaling && not a.closed) _ _ v v
  round-IsBackedOff a signaling rtc (close waiter) other v =
      let down = shutdown-IsBackedOff a v in if_both (IsBackedOff id earlier) waiter _ _ down down
  round-IsBackedOff a signaling rtc (cmd c) other v = handle_cmd-IsBackedOff id earlier a rtc c v
  round-IsBackedOff a signaling rtc cmds_end other v = shutdown-IsBackedOff a v
  round-IsBackedOff a signaling rtc (internal i) other v =
      >>=_cases LoopBackedOff (handle_internal a rtc i) _
        (λ b e.
          subst (EndsBackedOff id earlier) e
            (handle_internal-IsBackedOff id earlier a rtc i other v))
        (λ e. tt) (λ _. tt)

  rounds-IsBackedOff :
      (loop : Loop) (arrivals : List (Arrival × Rtc))
      → All (λ (x : Arrival × Rtc). forgets id x.0 ≡ false) arrivals
      → IsBackedOff id earlier loop.actor
      → LoopBackedOff (run loop arrivals)
  unfolding run
  rounds-IsBackedOff loop [] others v = v
  rounds-IsBackedOff loop ((arrival, rtc) ∷ rest) others v =
      if_both LoopBackedOff loop.stopped _ _ v (
        >>=_cases LoopBackedOff (round loop.actor loop.signaling_open rtc arrival) _
          (λ next e. rounds-IsBackedOff next rest others.1 (
            subst LoopBackedOff e
              (round-IsBackedOff loop.actor loop.signaling_open rtc arrival others.0 v)))
          (λ e. tt) (λ _. tt))

failure_counted :
    (a : Actor) (id epoch : ℕ) (peer : Peer)
    → Map.get a.peers id ≡ some peer
    → rebuilds (handle_peer_failure a id epoch) id
      ≡ (if peer.link.initiator && not a.closed then 1 else 0) + rebuilds a id
unfolding handle_peer_failure count_failure
failure_counted a id epoch peer there =
    ground (arith, there, get-insert a.rebuild_counts id id (rebuilds a id + 1))

length_added :
    (id : ℕ) (count : ℕ) (log earlier : List ℕ)
    → log ≡ backoff (min 3 count) ++ earlier
    → length log ≤ 3 + length earlier
length_added id count log earlier h =
    let sizes = ap length h ∙ length-append (backoff (min 3 count)) earlier in
    omega (arith, sizes, length-backoff (min 3 count))

-- From a state in which no failure of a player is counted, over any run of the loop, whatever arrives
-- in between (rebuilds of the connection that fail again included), until the connection to the player
-- is made or the player joins, comes back or is replaced: the rebuild timers that are started for the
-- player are one for each of the first three failures that are counted, of one, two and three
-- seconds, and so at most three. After the run, a failure counts once if we start the connection to
-- the player and the session is open, and else not at all.
pub run-IsBackedOff :
    (id : ℕ) (loop next : Loop) (arrivals : List (Arrival × Rtc))
    → rebuilds loop.actor id ≡ 0
    → All (λ (x : Arrival × Rtc). forgets id x.0 ≡ false) arrivals
    → run loop arrivals ≡ ok next
    → (delays id next.actor.log
        ≡ backoff (min 3 (rebuilds next.actor id)) ++ delays id loop.actor.log)
      × (length (delays id next.actor.log) ≤ 3 + length (delays id loop.actor.log))
      × ((epoch : ℕ) (peer : Peer)
          → Map.get next.actor.peers id ≡ some peer
          → rebuilds (handle_peer_failure next.actor id epoch) id
            ≡ (if peer.link.initiator && not next.actor.closed then 1 else 0)
              + rebuilds next.actor id)
unfolding backoff
run-IsBackedOff id loop next arrivals fresh others runs =
    let v = subst (LoopBackedOff id (delays id loop.actor.log)) runs (
      rounds-IsBackedOff id (delays id loop.actor.log) loop arrivals others
        (ap (λ n. backoff (min 3 n) ++ delays id loop.actor.log) (sym fresh))) in
    (
      v,
      length_added id (rebuilds next.actor id) _ _ v,
      λ epoch peer there. failure_counted next.actor id epoch peer there,
    )
