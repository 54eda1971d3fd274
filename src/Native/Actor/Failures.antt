-- ===== src/Native/Actor/Failures.antt =====
-- What happens when connections to a player fail again and again, whatever else happens meanwhile.
-- The handlers in Handlers, the loop in Runs.
mod Handlers
pub mod Runs
use Prim.Native.Nat.{zero}
use mathlib.Core.Path.{subst}
use lobbylink.Base.{
  ℕ, suc, ◌+◌, ◌*◌, ◌<◌, ◌≡◌, refl, ◌∙◌, ap, sym, false, List, [], ◌∷◌, ◌++◌, none, some, ltb,
  arith, length, min, Bool-cases, inl, inr, ◌==◌, if_both, not, ◌||◌, lookup_cases,
}
use lobbylink.Base.Map
use lobbylink.Base.Map.{get-insert}
use lobbylink.Error.{max_peer_rebuilds}
use lobbylink.Events.{Event}
use lobbylink.Native.Actor.{Actor}
use lobbylink.Native.Actor.Peers.{emit}
use lobbylink.Native.Actor.Messages.{rebuilds, count_failure, handle_peer_failure}
use lobbylink.Native.Actor.Unseen.{delays, IsUnseen}

-- The delays of the timers of `n` failures, newest first: a second more each.
unfoldable pub backoff : ℕ → List ℕ
backoff zero = []
backoff (suc n) = (1000 * suc n) ∷ backoff n

pub length-backoff : (n : ℕ) → length (backoff n) ≡ n
unfolding backoff
length-backoff zero = refl
length-backoff (suc n) = ap suc (length-backoff n)

backoff_more : (n : ℕ) → n < 3 → backoff (min 3 (n + 1)) ≡ (1000 * (n + 1)) ∷ backoff (min 3 n)
unfolding backoff
backoff_more zero h = refl
backoff_more (suc zero) h = refl
backoff_more (suc (suc zero)) h = refl
backoff_more (suc (suc (suc n))) h = absurd (omega arith)

-- Since `earlier`, the first three failures that are counted have had their timers.
abbrev pub IsBackedOff : ℕ → List ℕ → Actor → Type 0
IsBackedOff id earlier a = delays id a.log ≡ backoff (min 3 (rebuilds a id)) ++ earlier

module _ (id : ℕ) (earlier : List ℕ) where
  pub same-IsBackedOff :
      (a b : Actor)
      → rebuilds b id ≡ rebuilds a id
      → delays id b.log ≡ delays id a.log
      → IsBackedOff id earlier a
      → IsBackedOff id earlier b
  same-IsBackedOff a b same_count same_log v =
      same_log ∙ (v ∙ ap (λ n. backoff (min 3 n) ++ earlier) (sym same_count))

  pub unseen-IsBackedOff :
      (a b : Actor) → IsUnseen a b → IsBackedOff id earlier a → IsBackedOff id earlier b
  unseen-IsBackedOff a b u v =
      same-IsBackedOff a b (ap (λ m. elim (Map.get m id) [ none ↦ 0 | some n ↦ n ]) u.counts)
        (u.timers id) v

  pub emit-IsBackedOff :
      (a : Actor) (e : Event) → IsBackedOff id earlier a → IsBackedOff id earlier (emit a e)
  unfolding emit delays
  emit-IsBackedOff a e v = if_both (IsBackedOff id earlier) a.closed a _ v v

  own_failure-IsBackedOff :
      (a : Actor) (epoch : ℕ)
      → IsBackedOff id earlier a
      → IsBackedOff id earlier (count_failure a id epoch)
  unfolding count_failure delays
  own_failure-IsBackedOff a epoch v =
      let n = rebuilds a id in
      let now = get-insert a.rebuild_counts id id (n + 1) in
      elim (Bool-cases (ltb max_peer_rebuilds (n + 1))) [
        | inl many ↦
            let full : min 3 (n + 1) ≡ min 3 n = ground (arith, many) in
            ground (arith, v, now, many, full)
        | inr few ↦
            let more = backoff_more n (ground (arith, few)) in ground (arith, v, now, few, more)
      ]

  other_failure-IsBackedOff :
      (a : Actor) (k epoch : ℕ)
      → (k == id) ≡ false
      → IsBackedOff id earlier a
      → IsBackedOff id earlier (count_failure a k epoch)
  unfolding count_failure delays
  other_failure-IsBackedOff a k epoch other v =
      ground (arith, v, other, get-insert a.rebuild_counts k id (rebuilds a k + 1))

  pub handle_peer_failure-IsBackedOff :
      (a : Actor) (k epoch : ℕ)
      → IsBackedOff id earlier a
      → IsBackedOff id earlier (handle_peer_failure a k epoch)
  unfolding handle_peer_failure
  handle_peer_failure-IsBackedOff a k epoch v =
      lookup_cases (IsBackedOff id earlier) (Map.get a.peers k) a _ (λ _. v)
        (λ peer _.
          if_both (IsBackedOff id earlier) (not peer.link.initiator || a.closed) a _ v
            (elim (Bool-cases (k == id)) [
              | inl same ↦
                  subst (λ j. IsBackedOff id earlier (count_failure a j epoch))
                    (ground (arith, same)) (own_failure-IsBackedOff a epoch v)
              | inr other ↦ other_failure-IsBackedOff a k epoch other v
            ]))
