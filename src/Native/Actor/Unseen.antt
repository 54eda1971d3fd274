-- ===== src/Native/Actor/Unseen.antt =====
-- The parts of the handlers in which the application sees no difference.
pub mod Signals
use lobbylink.Base.{
  ℕ, ◌≡◌, refl, ◌∙◌, Bool, true, false, List, [], ◌∷◌, ◌++◌, Option, none, some, ltb, ◌==◌, not,
  if_both, if◌then◌else◌, arith, ap, lookup_cases, Text,
}
use lobbylink.Base.Map
use lobbylink.Base.Map.{get-remove}
use lobbylink.Events.{Event}
use lobbylink.Protocol.{SignalPayload, offer}
use lobbylink.Native.Actor.{Link, Rtc, Actor, Output, event, rebuild_timer}
use lobbylink.Native.Actor.Peers.{
  drop_peer, close_peer, close_peers, teardown_peers, add_link, create_link,
}
use lobbylink.Native.Actor.Signals.{send_signal, send_local, initiate_peer}
use lobbylink.Native.Actor.Lobby.{reset_peer}
use lobbylink.Native.Actor.Messages.{rebuilds}

-- The events in the log, newest first.
abbrev event_in : Output → List Event
event_in (event e) = e ∷ []
event_in _ = []

unfoldable pub events : List Output → List Event
events [] = []
events (o ∷ log) = event_in o ++ events log

-- The delays of the rebuild timers of a player, newest first.
abbrev delay_in : ℕ → Output → List ℕ
delay_in id (rebuild_timer i epoch ms) = if i == id then ms ∷ [] else []
delay_in id _ = []

unfoldable pub delays : ℕ → List Output → List ℕ
delays id [] = []
delays id (o ∷ log) = delay_in id o ++ delays id log

-- The application sees no difference: the same roster, as open or closed, with the same events;
-- and no failure is counted or forgotten, and no rebuild is planned.
pub record IsUnseen (a b : Actor) : Type 0 where
  pub roster : b.roster ≡ a.roster
  pub closed : b.closed ≡ a.closed
  pub reported : events b.log ≡ events a.log
  pub counts : b.rebuild_counts ≡ a.rebuild_counts
  pub timers : (id : ℕ) → delays id b.log ≡ delays id a.log

-- The application sees no difference, and only the failures of one player are forgotten.
pub record IsReset (k : ℕ) (a b : Actor) : Type 0 where
  pub roster : b.roster ≡ a.roster
  pub closed : b.closed ≡ a.closed
  pub reported : events b.log ≡ events a.log
  pub others : (id : ℕ) → (k == id) ≡ false → rebuilds b id ≡ rebuilds a id
  pub timers : (id : ℕ) → delays id b.log ≡ delays id a.log

pub IsUnseen-refl : (a : Actor) → IsUnseen a a
IsUnseen-refl a = record {
  roster = refl;
  closed = refl;
  reported = refl;
  counts = refl;
  timers = λ _. refl;
}

pub IsUnseen-trans : (a b c : Actor) → IsUnseen a b → IsUnseen b c → IsUnseen a c
IsUnseen-trans a b c p q = record {
  roster = q.roster ∙ p.roster;
  closed = q.closed ∙ p.closed;
  reported = q.reported ∙ p.reported;
  counts = q.counts ∙ p.counts;
  timers = λ id. q.timers id ∙ p.timers id;
}

pub close_peer-IsUnseen : (a : Actor) (k : ℕ) → IsUnseen a (close_peer a k)
unfolding close_peer drop_peer events delays
close_peer-IsUnseen a k =
    lookup_cases (IsUnseen a) (Map.get a.peers k) a (drop_peer a k) (λ _. IsUnseen-refl a)
      (λ _ _. record {
        roster = refl;
        closed = refl;
        reported = refl;
        counts = refl;
        timers = λ _. refl;
      })

close_peers-IsUnseen : (ids : List ℕ) (a : Actor) → IsUnseen a (close_peers ids a)
unfolding close_peers
close_peers-IsUnseen [] a = IsUnseen-refl a
close_peers-IsUnseen (id ∷ ids) a =
    IsUnseen-trans a _ _ (close_peer-IsUnseen a id) (close_peers-IsUnseen ids (close_peer a id))

pub teardown_peers-IsUnseen : (a : Actor) → IsUnseen a (teardown_peers a)
unfolding teardown_peers
teardown_peers-IsUnseen a =
    let torn = close_peers-IsUnseen (Map.keys a.peers) a in
    record {
      roster = torn.roster;
      closed = torn.closed;
      reported = torn.reported;
      counts = torn.counts;
      timers = torn.timers;
    }

pub create_link-IsUnseen :
    (a : Actor) (rtc : Rtc) (k : ℕ) (i : Bool) → IsUnseen a (create_link a rtc k i).0
unfolding create_link add_link events delays
create_link-IsUnseen a rtc k i =
    let closed = close_peer-IsUnseen a k in
    if_both (λ (r : Actor × Option Link). IsUnseen a r.0) rtc.new_link_ok _ _
      (record {
        roster = closed.roster;
        closed = closed.closed;
        reported = closed.reported;
        counts = closed.counts;
        timers = closed.timers;
      })
      (record {
        roster = closed.roster;
        closed = closed.closed;
        reported = closed.reported;
        counts = closed.counts;
        timers = closed.timers;
      })

pub send_signal-IsUnseen :
    (a : Actor) (to : ℕ) (payload : SignalPayload) → IsUnseen a (send_signal a to payload)
unfolding send_signal events delays
send_signal-IsUnseen a to payload =
    if_both (IsUnseen a) a.closed a _ (IsUnseen-refl a)
      (record { roster = refl; closed = refl; reported = refl; counts = refl; timers = λ _. refl })

pub send_local-IsUnseen :
    (a : Actor) (rtc : Rtc) (to : ℕ) (payload : Text → SignalPayload)
    → IsUnseen a (send_local a rtc to payload)
unfolding send_local
send_local-IsUnseen a rtc to payload =
    if_both (IsUnseen a) (not rtc.set_local_ok) a _ (IsUnseen-refl a) (
      lookup_cases (IsUnseen a) rtc.local_description a _ (λ _. IsUnseen-refl a)
        (λ sdp _. send_signal-IsUnseen a to (payload sdp)))

pub initiate_peer-IsUnseen : (a : Actor) (rtc : Rtc) (k : ℕ) → IsUnseen a (initiate_peer a rtc k)
unfolding initiate_peer
initiate_peer-IsUnseen a rtc k =
    let made = create_link-IsUnseen a rtc k true in
    if_both (IsUnseen a) a.closed a _ (IsUnseen-refl a) (
      lookup_cases (IsUnseen a) (create_link a rtc k true).1 _ _ (λ _. made)
        (λ _ _.
          if_both (IsUnseen a) (not rtc.create_offer_ok) _ _ made
            (IsUnseen-trans a _ _ made (send_local-IsUnseen _ rtc k offer))))

-- Another player's count after one count is removed and the rest kept.
rebuilds_removed :
    (a b : Actor) (k id : ℕ)
    → b.rebuild_counts ≡ Map.remove a.rebuild_counts k
    → (k == id) ≡ false
    → rebuilds b id ≡ rebuilds a id
rebuilds_removed a b k id same other =
    ap (λ m. elim (Map.get m id) [ none ↦ 0 | some n ↦ n ]) same
    ∙ ground (arith, get-remove a.rebuild_counts k id, other)

pub reset_peer-IsReset : (a : Actor) (rtc : Rtc) (k : ℕ) → IsReset k a (reset_peer a rtc k)
unfolding reset_peer
reset_peer-IsReset a rtc k =
    let closed = close_peer-IsUnseen a k in
    let counts = Map.remove (close_peer a k).rebuild_counts k in
    let reset : Actor = record (close_peer a k) { rebuild_counts = counts } in
    let from_reset = λ (b : Actor) (u : IsUnseen reset b).
      let whole : IsReset k a b = record {
        roster = u.roster ∙ closed.roster;
        closed = u.closed ∙ closed.closed;
        reported = u.reported ∙ closed.reported;
        others = λ id other.
            rebuilds_removed a b k id (u.counts ∙ ap (λ m. Map.remove m k) closed.counts) other;
        timers = λ id. u.timers id ∙ closed.timers id;
      } in
      whole in
    if_both (IsReset k a) (k == a.self_id) a _
      (record {
        roster = refl;
        closed = refl;
        reported = refl;
        others = λ _ _. refl;
        timers = λ _. refl;
      })
      (if_both (IsReset k a) (ltb a.self_id k) _ _
        (from_reset _ (initiate_peer-IsUnseen reset rtc k)) (from_reset _ (IsUnseen-refl reset)))
