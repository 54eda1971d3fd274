-- ===== src/Native/Actor/Invariant/Commands.antt =====
-- The API commands keep the invariant.
use lobbylink.Base.{
  ℕ, ap, sym, ◌∙◌, List, [], ◌∷◌, not, ◌&&◌, if◌then◌else◌, if_both, lookup_cases, inl, inr, ◌==◌,
}
use lobbylink.Base.Map
use lobbylink.Base.Map.{HashMap, get-insert_inv}
use lobbylink.Roster.{PlayerInfo}
use lobbylink.Native.Actor.{Rtc, Actor, send_datagram, spawn_sender, queue_job}
use lobbylink.Native.Actor.Messages.{
  Cmd, send_reliable, send_best_effort, broadcast_best_effort, best_effort_to, best_effort_to_all,
  watch_link, open_queue, handle_cmd,
}
use lobbylink.Native.Actor.Invariant.{IsSound, link_of, put-IsSound}
use lobbylink.Native.Actor.Invariant.Ends.{watched_link}

module _ {self_id max_players : ℕ} where
  best_effort_to-IsSound :
      (a : Actor) (rtc : Rtc) (to : ℕ) (bytes : List ℕ)
      → IsSound self_id max_players a
      → IsSound self_id max_players (best_effort_to a rtc to bytes)
  unfolding best_effort_to
  best_effort_to-IsSound a rtc to bytes v =
      lookup_cases (IsSound self_id max_players) (Map.get a.peers to) a _ (λ _. v)
        (λ peer _.
          if_both (IsSound self_id max_players) _ a _ v
            (put-IsSound a (send_datagram peer.link.epoch bytes) tt v))

  best_effort_to_all-IsSound :
      (a : Actor) (rtc : Rtc) (slots : List PlayerInfo) (bytes : List ℕ)
      → IsSound self_id max_players a
      → IsSound self_id max_players (best_effort_to_all a rtc slots bytes)
  unfolding best_effort_to_all
  best_effort_to_all-IsSound a rtc [] bytes v = v
  best_effort_to_all-IsSound a rtc (slot ∷ slots) bytes v =
      best_effort_to_all-IsSound
        (if not (slot.id == a.self_id) && slot.occupied
          then best_effort_to a rtc slot.id bytes
          else a)
        rtc slots bytes
        (if_both (IsSound self_id max_players) _ _ a (best_effort_to-IsSound a rtc slot.id bytes v)
          v)

  watch_link-IsSound :
      (a : Actor) (to : ℕ)
      → IsSound self_id max_players a
      → IsSound self_id max_players (watch_link a to)
  unfolding watch_link
  watch_link-IsSound a to v =
      lookup_cases (IsSound self_id max_players) (Map.get a.link_watch to) _ _
        (λ _. record {
          self = v.self;
          slots = v.slots;
          roster = v.roster;
          shared = v.shared;
          linked = record {
            links = v.linked.links;
            apart = v.linked.apart;
            spent = v.linked.spent;
            watched = λ i w g. elim (get-insert_inv a.link_watch to i _ w g) [
              | inl (at, now) ↦
                  now
                  ∙ watched_link (Map.get a.peers to)
                  ∙ ap (λ j. link_of (Map.get a.peers j)) (sym at)
              | inr (other, was) ↦ v.linked.watched i w was
            ];
          };
          outputs = v.outputs;
          flushed = v.flushed;
        })
        (λ _ _. v)

  open_queue-IsSound :
      (a : Actor) (to : ℕ)
      → IsSound self_id max_players a
      → IsSound self_id max_players (open_queue a to)
  unfolding open_queue
  open_queue-IsSound a to v =
      lookup_cases (IsSound self_id max_players) (Map.get a.send_queues to) _ _
        (λ _. put-IsSound _ (spawn_sender to) tt (record {
          self = v.self;
          slots = v.slots;
          roster = v.roster;
          shared = v.shared;
          linked = v.linked;
          outputs = v.outputs;
          flushed = v.flushed;
        }))
        (λ _ _. v)

  pub handle_cmd-IsSound :
      (a : Actor) (rtc : Rtc) (c : Cmd)
      → IsSound self_id max_players a
      → IsSound self_id max_players (handle_cmd a rtc c)
  unfolding handle_cmd
  handle_cmd-IsSound a rtc (send_reliable to bytes job) v =
      if_both (IsSound self_id max_players) a.closed _ _ (put-IsSound a _ tt v) (
        put-IsSound _ (queue_job to bytes job) tt
          (open_queue-IsSound _ to (watch_link-IsSound a to v)))
  handle_cmd-IsSound a rtc (send_best_effort to bytes) v = best_effort_to-IsSound a rtc to bytes v
  handle_cmd-IsSound a rtc (broadcast_best_effort bytes) v =
      best_effort_to_all-IsSound a rtc a.roster bytes v
