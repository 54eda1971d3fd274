-- ===== src/Native/Actor/Invariant/Reachable.antt =====
-- `run` as a step relation: what holds in every state that the loop reaches.
use mathlib.Core.Path.{subst}
use lobbylink.Base.{
  ◌∙◌, ℕ, ◌≡◌, refl, sym, Bool, true, false, List, [], ◌∷◌, Option, not, ◌&&◌, if◌then◌else◌, arith,
  if_both, if_cases, Text,
}
use lobbylink.Base.Map
use lobbylink.Base.Outcome.{ok, ok-injective, ◌>>=◌}
use lobbylink.Protocol.{IceServer}
use lobbylink.Roster.{PlayerInfo}
use lobbylink.Roster.Laws.{IsRoster}
use lobbylink.Native.Actor.{Rtc, Actor, contains, new_actor, ws_ping, close_done, storage_clear}
use lobbylink.Native.Actor.Signals.{initiate_peer}
use lobbylink.Native.Actor.Loop.{
  shutdown, is_target, offer_all, start, Arrival, tick, close, cmd, cmds_end, internal, Loop, round,
}
use lobbylink.Native.Actor.Invariant.{IsFlushed-later, IsSound, put-IsSound}
use lobbylink.Native.Actor.Invariant.Links.{teardown_peers-IsSound}
use lobbylink.Native.Actor.Invariant.Offering.{initiate_peer-IsSound}
use lobbylink.Native.Actor.Invariant.Commands.{handle_cmd-IsSound}
use lobbylink.Native.Actor.Invariant.Internals.{handle_internal-IsSound}
use lobbylink.Native.Actor.Invariant.Ends.{IsFired}

-- What can arrive: anything, except that rebuild messages come from timers that were started.
abbrev pub CanArrive : Actor → Arrival → Type 0
CanArrive a (internal i) = IsFired a i
CanArrive a _ = Unit

-- The states that the loop reaches from a joined session, by rounds that end well.
pub data Reachable (first : Actor) : Loop → Type 0 where
  starting : Reachable first (record { actor = first; signaling_open = true; stopped = false })
  later :
      (loop next : Loop) (arrival : Arrival) (rtc : Rtc)
      → Reachable first loop
      → loop.stopped ≡ false
      → CanArrive loop.actor arrival
      → round loop.actor loop.signaling_open rtc arrival ≡ ok next
      → Reachable first next

module _ {self_id max_players : ℕ} where
  new_actor-IsSound :
      (roster : List PlayerInfo) (started : Bool) (ice_servers : List IceServer)
      (force_relay : Bool) (storage_path : Option Text) (keepalive : Bool)
      → IsRoster max_players roster
      → IsSound self_id max_players (
          new_actor self_id max_players roster started ice_servers force_relay storage_path
            keepalive)
  unfolding new_actor Map.get contains
  new_actor-IsSound roster started ice_servers force_relay storage_path keepalive r = record {
    self = refl;
    slots = refl;
    roster = r;
    shared = refl;
    linked = record {
      links = λ i p g. cc;
      apart = λ i j p q g g' e. cc;
      spent = λ e g. ground (arith, g);
      watched = λ i w g. cc;
    };
    outputs = tt;
    flushed = λ i p g n. cc;
  }

  offer_all-IsSound :
      (a : Actor) (rtc : ℕ → Rtc) (roster : List PlayerInfo)
      → IsSound self_id max_players a
      → IsSound self_id max_players (offer_all a rtc roster)
  unfolding offer_all
  offer_all-IsSound a rtc [] v = v
  offer_all-IsSound a rtc (p ∷ roster) v =
      offer_all-IsSound (if is_target a.self_id p then initiate_peer a (rtc p.id) p.id else a) rtc
        roster
        (if_cases (IsSound self_id max_players) (is_target a.self_id p) _ a
          (λ target. initiate_peer-IsSound a (rtc p.id) p.id (ground (arith, target, v.self)) v)
          (λ _. v))

  shutdown-IsSound :
      (a : Actor) → IsSound self_id max_players a → IsSound self_id max_players (shutdown a)
  unfolding shutdown
  shutdown-IsSound a v = put-IsSound _ (storage_clear _) tt (
      teardown_peers-IsSound _ (record {
        self = v.self;
        slots = v.slots;
        roster = v.roster;
        shared = v.shared;
        linked = v.linked;
        outputs = (tt, (tt, v.outputs));
        flushed = IsFlushed-later a.peers _ _ (IsFlushed-later a.peers _ _ v.flushed);
      }))

  -- A round with anything that can arrive ends well, in a sound actor.
  round-IsSound :
      (a : Actor) (signaling : Bool) (rtc : Rtc) (arrival : Arrival)
      → CanArrive a arrival
      → IsSound self_id max_players a
      → (next : Loop) × (round a signaling rtc arrival ≡ ok next)
        × IsSound self_id max_players next.actor
  unfolding round
  round-IsSound a signaling rtc (tick sent) can v = (
    _,
    refl,
    if_both (λ (l : Loop). IsSound self_id max_players l.actor)
        (a.keepalive && signaling && not a.closed) _ _ (put-IsSound a ws_ping tt v) v,
  )
  round-IsSound a signaling rtc (close waiter) can v = (
    _,
    refl,
    if_both (IsSound self_id max_players) waiter _ _
        (put-IsSound _ close_done tt (shutdown-IsSound a v)) (shutdown-IsSound a v),
  )
  round-IsSound a signaling rtc (cmd c) can v = (_, refl, handle_cmd-IsSound a rtc c v)
  round-IsSound a signaling rtc cmds_end can v = (_, refl, shutdown-IsSound a v)
  round-IsSound a signaling rtc (internal i) can v =
      let (a', runs, sound) = handle_internal-IsSound a rtc i can v in
      (record { actor = a'; signaling_open = signaling; stopped = false }, rw (runs, ◌>>=◌), sound)

-- The invariant of the session holds from the first offers on, whatever the server, the peers, the
-- webrtc crate and the application do: the roster has one slot per id and the API shows the same
-- one; every peer's link is open, of that player, with an epoch of its own, and ours to start exactly
-- if the player's id is above ours; every watch holds the player's current link; all offers went to
-- higher ids, all answers to lower ones; no candidate was given to a connection before its remote
-- description was set; and every rebuild timer is between one and three seconds, for a player above
-- us.
pub Reachable-IsSound :
    (self_id max_players : ℕ) (roster : List PlayerInfo) (started : Bool)
    (ice_servers : List IceServer) (force_relay : Bool) (storage_path : Option Text)
    (keepalive : Bool) (rtc : ℕ → Rtc) (loop : Loop)
    → IsRoster max_players roster
    → Reachable
        (start
          (new_actor self_id max_players roster started ice_servers force_relay storage_path
            keepalive)
          rtc)
        loop
    → IsSound self_id max_players loop.actor
unfolding start
Reachable-IsSound self_id max_players roster started ice_servers force_relay storage_path keepalive
      rtc loop r reach =
    go loop reach
  where
    first : Actor
    first =
        new_actor self_id max_players roster started ice_servers force_relay storage_path keepalive

    go :
        (l : Loop)
        → Reachable (offer_all first rtc first.roster) l
        → IsSound self_id max_players l.actor
    go _ starting =
        offer_all-IsSound first rtc first.roster
          (new_actor-IsSound roster started ice_servers force_relay storage_path keepalive r)
    go _ (later l next arrival p reach going can runs) =
        let (n, runs', sound) = round-IsSound l.actor l.signaling_open p arrival can (go l reach) in
        subst (λ (m : Loop). IsSound self_id max_players m.actor)
          (ok-injective n next (sym runs' ∙ runs)) sound

-- From every state that the loop reaches, a round with anything that can arrive ends well: neither the
-- index into the map of peers when a connection is made, nor any index or `expect` of the framing and
-- the reassembly, panics. (The lock of the shared roster is taken never to be poisoned.)
pub Reachable-next :
    (self_id max_players : ℕ) (roster : List PlayerInfo) (started : Bool)
    (ice_servers : List IceServer) (force_relay : Bool) (storage_path : Option Text)
    (keepalive : Bool) (first_rtc : ℕ → Rtc) (loop : Loop) (rtc : Rtc) (arrival : Arrival)
    → IsRoster max_players roster
    → Reachable
        (start
          (new_actor self_id max_players roster started ice_servers force_relay storage_path
            keepalive)
          first_rtc)
        loop
    → CanArrive loop.actor arrival
    → (next : Loop) × (round loop.actor loop.signaling_open rtc arrival ≡ ok next)
Reachable-next self_id max_players roster started ice_servers force_relay storage_path keepalive
      first_rtc loop rtc arrival r reach can =
    let sound =
      Reachable-IsSound self_id max_players roster started ice_servers force_relay storage_path
        keepalive first_rtc loop r reach in
    let (next, runs, _) = round-IsSound loop.actor loop.signaling_open rtc arrival can sound in
    (next, runs)
