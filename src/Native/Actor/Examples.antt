-- ===== src/Native/Actor/Examples.antt =====
-- The actor: the theorems in the session of player 1 of three, where player 2 is there and player 0
-- comes and goes.
use lobbylink.Base.{
  ◌<◌, get_elem?, if◌then◌else◌, arith, ℕ, ◌≤◌, ◌≡◌, refl, true, false, List, [], ◌∷◌, ◌++◌, none,
  some, ◌&&◌, not, ◌+◌, min, length, codes,
}
use lobbylink.Base.Map
use lobbylink.Events as EventsOf
use lobbylink.Base.Outcome.{ok}
use lobbylink.Protocol.{room_started, player_left}
use lobbylink.Roster.{PlayerInfo, WirePlayer, fill_slots, empty_slots, modify, roster_from_snapshot}
use lobbylink.Roster.Laws.{IsRoster, roster_from_snapshot-IsRoster}
use lobbylink.Native.Link.{open_channel}
use lobbylink.Native.Actor.{
  Link, Peer, ConnectionState, SignalingState, Rtc, Actor, new_actor, contains,
}
use lobbylink.Native.Actor.Peers.{create_link, add_link, close_peer, drop_peer, emit}
use lobbylink.Native.Actor.Signals.{initiate_peer, send_local, send_signal}
use lobbylink.Native.Actor.Lobby.{handle_server_message}
use lobbylink.Native.Actor.Messages.{
  state_changed, ws, rebuild, link_epoch_current, handle_internal, send_best_effort, rebuilds,
  act_on_state, handle_peer_state, handle_peer_failure, count_failure, handle_rebuild,
}
use lobbylink.Native.Actor.Loop.{
  start, offer_all, Loop, Arrival, internal, cmd, round, run, shutdown,
}
use lobbylink.Native.Actor.Invariant.{IsSound}
use lobbylink.Native.Actor.Invariant.Reachable.{
  Reachable, starting, later, Reachable-IsSound, Reachable-next,
}
use lobbylink.Native.Actor.Stale.{about, handle_internal_stale, create_link_current}
use lobbylink.Native.Actor.Failures.{backoff}
use lobbylink.Native.Actor.Failures.Runs.{run-IsBackedOff}
use lobbylink.Native.Actor.Unseen.{events, delays}
use lobbylink.Room.{slot_after, event_of}
use lobbylink.Native.Actor.Effects.{handle_server_message_exact}
use lobbylink.Native.Actor.Closing.{IsEnded, shutdown_complete}

abbrev players : List WirePlayer
players =
    record { id = 1; occupied = true; connected = true }
    ∷ record { id = 2; occupied = true; connected = true }
    ∷ []

abbrev rtc : Rtc
rtc = record {
  new_link_ok = true;
  create_offer_ok = true;
  create_answer_ok = true;
  set_local_ok = true;
  local_description = some (codes "v=0");
  sdp_ok = λ sdp. true;
  set_remote_ok = true;
  candidate_ok = λ candidate. true;
  connection_state = λ epoch. ConnectionState.failed;
  state_text = λ state. codes "failed";
  signaling_state = λ epoch. SignalingState.have_local_offer;
  best_effort_state = λ epoch. open_channel;
  now_ms = 1000;
}

abbrev roster : List PlayerInfo
roster = roster_from_snapshot 3 players

-- After the first offers.
abbrev first : Actor
first = start (new_actor 1 3 roster false [] false none true) (λ id. rtc)

abbrev started_loop : Loop
started_loop = record {
  actor = handle_server_message first rtc room_started;
  signaling_open = true;
  stopped = false;
}

round_started : round first true rtc (internal (ws room_started)) ≡ ok started_loop
unfolding round handle_internal
round_started = refl

started_loop-Reachable : Reachable first started_loop
started_loop-Reachable =
    later _ started_loop (internal (ws room_started)) rtc starting refl tt round_started

roster-IsRoster : IsRoster 3 roster
roster-IsRoster = roster_from_snapshot-IsRoster 3 players

Reachable-IsSound_example : IsSound 1 3 started_loop.actor
Reachable-IsSound_example =
    Reachable-IsSound 1 3 roster false [] false none true (λ id. rtc) started_loop roster-IsRoster
      started_loop-Reachable

Reachable-next_example :
    (next : Loop) × (round started_loop.actor true rtc (cmd (send_best_effort 2 (1 ∷ [])))
      ≡ ok next)
Reachable-next_example =
    Reachable-next 1 3 roster false [] false none true (λ id. rtc) started_loop rtc
      (cmd (send_best_effort 2 (1 ∷ []))) roster-IsRoster started_loop-Reachable tt

first-IsSound : IsSound 1 3 first
first-IsSound =
    Reachable-IsSound 1 3 roster false [] false none true (λ id. rtc) _ roster-IsRoster starting

-- The link to player 2 has epoch 1.
epoch_1_current : link_epoch_current first 2 1 ≡ true
unfolding link_epoch_current start offer_all roster_from_snapshot fill_slots empty_slots modify
    initiate_peer create_link add_link close_peer send_local send_signal new_actor contains Map.get
    Map.insert Map.remove
epoch_1_current = refl

epoch_0_stale : link_epoch_current first 2 0 ≡ false
unfolding link_epoch_current start offer_all roster_from_snapshot fill_slots empty_slots modify
    initiate_peer create_link add_link close_peer send_local send_signal new_actor contains Map.get
    Map.insert Map.remove
epoch_0_stale = refl

about_2 : about (state_changed 2 0 ConnectionState.failed) ≡ some (2, 0)
unfolding about
about_2 = refl

handle_internal_stale_example :
    handle_internal first rtc (state_changed 2 0 ConnectionState.failed) ≡ ok first
handle_internal_stale_example =
    handle_internal_stale 1 3 first rtc (state_changed 2 0 ConnectionState.failed) 2 0 first-IsSound
      about_2 epoch_0_stale

create_link_current_example :
    ((epoch : ℕ)
      → epoch ≤ first.epoch_counter
      → link_epoch_current (create_link first rtc 2 true).0 2 epoch ≡ false)
    × ((link : Link)
        → (create_link first rtc 2 true).1 ≡ some link
        → link_epoch_current (create_link first rtc 2 true).0 2 link.epoch ≡ true)
create_link_current_example = create_link_current 1 3 first rtc 2 true first-IsSound

no_failures : rebuilds first 2 ≡ 0
unfolding start offer_all roster_from_snapshot fill_slots empty_slots modify initiate_peer
    create_link add_link close_peer send_local send_signal new_actor Map.get Map.insert Map.remove
no_failures = refl

-- The link to player 2 fails, its rebuild is started, and the new link fails too.
abbrev first_loop : Loop
first_loop = record { actor = first; signaling_open = true; stopped = false }

abbrev failing : List (Arrival × Rtc)
failing =
    (internal (state_changed 2 1 ConnectionState.failed), rtc)
    ∷ (internal (rebuild 2 1), rtc)
    ∷ (internal (state_changed 2 2 ConnectionState.failed), rtc)
    ∷ []

abbrev failed_loop : Loop
failed_loop = record {
  actor =
      handle_peer_failure
        (emit
          (handle_rebuild
            (handle_peer_failure (emit first (EventsOf.Event.peer_state 2 (codes "failed"))) 2 1)
            rtc 2 1)
          (EventsOf.Event.peer_state 2 (codes "failed")))
        2 2;
  signaling_open = true;
  stopped = false;
}

both_fail : run first_loop failing ≡ ok failed_loop
unfolding run round handle_internal handle_peer_state act_on_state handle_peer_failure count_failure
    handle_rebuild emit link_epoch_current start offer_all roster_from_snapshot fill_slots
    empty_slots modify initiate_peer create_link add_link close_peer drop_peer send_local
    send_signal new_actor contains Map.get Map.insert Map.remove
both_fail = refl

run-IsBackedOff_example :
    (delays 2 failed_loop.actor.log
      ≡ backoff (min 3 (rebuilds failed_loop.actor 2)) ++ delays 2 first.log)
    × (length (delays 2 failed_loop.actor.log) ≤ 3 + length (delays 2 first.log))
    × ((epoch : ℕ) (peer : Peer)
        → Map.get failed_loop.actor.peers 2 ≡ some peer
        → rebuilds (handle_peer_failure failed_loop.actor 2 epoch) 2
          ≡ (if peer.link.initiator && not failed_loop.actor.closed then 1 else 0)
            + rebuilds failed_loop.actor 2)
run-IsBackedOff_example =
    run-IsBackedOff 2 first_loop failed_loop failing no_failures (refl, (refl, (refl, tt)))
      both_fail

-- Two failures count, with timers of one and two seconds.
two_failures :
    (rebuilds failed_loop.actor 2 ≡ 2) × (delays 2 failed_loop.actor.log ≡ 2000 ∷ 1000 ∷ [])
unfolding handle_peer_failure count_failure delays handle_rebuild emit link_epoch_current start
    offer_all roster_from_snapshot fill_slots empty_slots modify initiate_peer create_link add_link
    close_peer drop_peer send_local send_signal new_actor contains Map.get Map.insert Map.remove
two_failures = (refl, refl)

shutdown_complete_example :
    ((j : ℕ) → Map.get (shutdown first).peers j ≡ none)
    × ((j : ℕ) (peer : Peer)
        → Map.get first.peers j ≡ some peer
        → IsEnded (shutdown first) peer.link.epoch)
    × ((shutdown first).link_watch ≡ [])
    × ((shutdown first).send_queues ≡ [])
    × ((shutdown first).closed ≡ true)
    × ((shutdown first).shared.closed ≡ true)
shutdown_complete_example = shutdown_complete first

abbrev slot_2 : PlayerInfo
slot_2 = record { id = 2; occupied = true; connected = true }

slot_2_there : (2 < first.max_players) × (get_elem? first.roster 2 ≡ some slot_2)
unfolding start offer_all roster_from_snapshot fill_slots empty_slots modify initiate_peer
    create_link add_link close_peer send_local send_signal new_actor Map.get Map.insert Map.remove
slot_2_there = (omega arith, refl)

handle_server_message_exact_example :
    (get_elem? (handle_server_message first rtc (player_left 2 (codes "explicit-leave"))).roster 2
      ≡ some (slot_after (player_left 2 (codes "explicit-leave")) 2 slot_2))
    × (events (handle_server_message first rtc (player_left 2 (codes "explicit-leave"))).log
        ≡ (if first.closed then [] else event_of (player_left 2 (codes "explicit-leave")))
          ++ events first.log)
handle_server_message_exact_example =
    handle_server_message_exact first rtc (player_left 2 (codes "explicit-leave")) 2 slot_2
      slot_2_there.0 slot_2_there.1
