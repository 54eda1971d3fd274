-- ===== src/Native/Actor/Messages.antt =====
-- The internal messages and the API commands of actor.rs.
use lobbylink.Base.{
  ℕ, ◌+◌, ◌*◌, Bool, true, false, List, [], ◌∷◌, Option, none, some, ltb, ◌==◌, if◌then◌else◌, ◌&&◌,
  ◌||◌, not, get_elem?, Text, codes,
}
use lobbylink.Base.Map
use lobbylink.Base.Map.{HashMap}
use lobbylink.Base.Outcome.{Outcome, ok, panic, ◌>>=◌}
use lobbylink.Error.{max_peer_rebuilds, send_high_water}
use lobbylink.Events as EventsOf
use lobbylink.Events.{reliable, best_effort}
use lobbylink.Protocol.{ServerMessage, ice}
use lobbylink.Protocol.Values.{Json}
use lobbylink.Reassembly.{Reassembler}
use lobbylink.Roster.{PlayerInfo}
use lobbylink.Native.Receive.{receive}
use lobbylink.Native.Link.{ChannelState, open_channel, closed_error}
use lobbylink.Native.Actor.{
  Peer, ConnectionState, Rtc, Actor, put, is_closed, query_pair, rebuild_timer, send_datagram,
  spawn_sender, queue_job, reply,
}
use lobbylink.Native.Actor.Peers.{emit}
use lobbylink.Native.Actor.Signals.{send_signal, initiate_peer}
use lobbylink.Native.Actor.Lobby.{handle_server_message}

pub data Internal : Type 0 where
  ws : ServerMessage → Internal
  ws_closed : Internal
  ice_found : ℕ → ℕ → Json → Internal
  state_changed : ℕ → ℕ → ConnectionState → Internal
  reliable_data best_effort_data : ℕ → ℕ → List ℕ → Internal
  pair_found : ℕ → ℕ → Text → Text → Internal
  rebuild : ℕ → ℕ → Internal

-- The job number stands for the caller's `oneshot` channel. `Close` is handled by `run`.
pub data Cmd : Type 0 where
  send_reliable : ℕ → List ℕ → ℕ → Cmd
  send_best_effort : ℕ → List ℕ → Cmd
  broadcast_best_effort : List ℕ → Cmd

unfoldable pub link_epoch_current : Actor → ℕ → ℕ → Bool
link_epoch_current a player_id epoch = elim (Map.get a.peers player_id) [
  | none ↦ false
  | some peer ↦ (peer.link.epoch == epoch) && not (is_closed a peer.link)
]

abbrev pub rebuilds : Actor → ℕ → ℕ
rebuilds a player_id = elim (Map.get a.rebuild_counts player_id) [ none ↦ 0 | some n ↦ n ]

-- One more failure is counted; the timer of `count` seconds runs unless there were too many.
unfoldable pub count_failure : Actor → ℕ → ℕ → Actor
count_failure a player_id epoch =
    let count = rebuilds a player_id + 1 in
    let counted = record a { rebuild_counts = Map.insert a.rebuild_counts player_id count } in
    if ltb max_peer_rebuilds count
    then counted
    else put counted (rebuild_timer player_id epoch (1000 * count))

unfoldable pub handle_peer_failure : Actor → ℕ → ℕ → Actor
handle_peer_failure a player_id epoch = elim (Map.get a.peers player_id) [
  | none ↦ a
  | some peer ↦ if not peer.link.initiator || a.closed then a else count_failure a player_id epoch
]

-- The match on the new state; `self.peers[&player_id]` panics where the map has no such peer.
unfoldable pub act_on_state : Actor → ℕ → ℕ → ConnectionState → Outcome ⊥ Actor
act_on_state a player_id epoch ConnectionState.connected = elim (Map.get a.peers player_id) [
  | none ↦ panic
  | some peer ↦ ok (
      put (record a { rebuild_counts = Map.remove a.rebuild_counts player_id })
        (query_pair player_id epoch))
]
act_on_state a player_id epoch ConnectionState.failed = ok (handle_peer_failure a player_id epoch)
act_on_state a player_id epoch _ = ok a

unfoldable pub handle_peer_state : Actor → Rtc → ℕ → ℕ → ConnectionState → Outcome ⊥ Actor
handle_peer_state a rtc player_id epoch state =
    if not (link_epoch_current a player_id epoch)
    then ok a
    else act_on_state (emit a (EventsOf.Event.peer_state player_id (rtc.state_text state)))
        player_id epoch state

-- The message that a buffer completed, if it did.
unfoldable pub deliver : Actor → ℕ → Option (List ℕ) → Actor
deliver a player_id none = a
deliver a player_id (some bytes) = emit a (EventsOf.Event.message player_id reliable bytes)

unfoldable pub with_reassembler : Actor → ℕ → Peer → Reassembler → Actor
with_reassembler a player_id peer r = record a {
  peers = Map.insert a.peers player_id (record peer { reassembler = r });
}

unfoldable pub handle_reliable : Actor → Rtc → ℕ → ℕ → List ℕ → Outcome ⊥ Actor
handle_reliable a rtc player_id epoch bytes = elim (Map.get a.peers player_id) [
  | none ↦ ok a
  | some peer ↦ if not (peer.link.epoch == epoch) then ok a else (do
    (r, out) ← receive peer.reassembler bytes rtc.now_ms
    ok (deliver (with_reassembler a player_id peer r) player_id out))
]

abbrev pub is_failed : ConnectionState → Bool
is_failed ConnectionState.failed = true
is_failed _ = false

abbrev pub in_room : Actor → ℕ → Bool
in_room a player_id = elim (get_elem? a.roster player_id) [
  | none ↦ false
  | some slot ↦ slot.occupied && slot.connected
]

unfoldable pub handle_rebuild : Actor → Rtc → ℕ → ℕ → Actor
handle_rebuild a rtc player_id epoch =
    if a.closed || not (link_epoch_current a player_id epoch)
    then a
    else (elim (Map.get a.peers player_id) [
      | none ↦ a
      | some peer ↦
          if not (is_failed (rtc.connection_state peer.link.epoch))
          then a
          else if in_room a player_id
          then initiate_peer a rtc player_id
          else a
    ])

abbrev pub lost_message : Text
lost_message = codes "signaling connection lost; existing peer channels stay up"

unfoldable pub handle_internal : Actor → Rtc → Internal → Outcome ⊥ Actor
handle_internal a rtc (ws msg) = ok (handle_server_message a rtc msg)
handle_internal a rtc ws_closed = ok (
    if not a.closed && not a.fatal_seen
    then emit (record a { fatal_seen = true })
        (EventsOf.Event.signaling_closed (codes "connection-lost") lost_message)
    else a)
handle_internal a rtc (ice_found player_id epoch candidate) = ok (
    if link_epoch_current a player_id epoch
    then send_signal a player_id (ice (some candidate))
    else a)
handle_internal a rtc (state_changed player_id epoch state) =
    handle_peer_state a rtc player_id epoch state
handle_internal a rtc (reliable_data player_id epoch bytes) =
    handle_reliable a rtc player_id epoch bytes
handle_internal a rtc (best_effort_data player_id epoch bytes) = ok (
    if link_epoch_current a player_id epoch
    then emit a (EventsOf.Event.message player_id best_effort bytes)
    else a)
handle_internal a rtc (pair_found player_id epoch local remote) = ok (
    if link_epoch_current a player_id epoch
    then emit a (EventsOf.Event.candidate_pair player_id local remote)
    else a)
handle_internal a rtc (rebuild player_id epoch) = ok (handle_rebuild a rtc player_id epoch)

abbrev pub is_open : ChannelState → Bool
is_open open_channel = true
is_open _ = false

-- The spawned task that looks at the buffered amount before it sends is `datagram_task`.
unfoldable pub best_effort_to : Actor → Rtc → ℕ → List ℕ → Actor
best_effort_to a rtc to bytes = elim (Map.get a.peers to) [
  | none ↦ a
  | some peer ↦
      if is_closed a peer.link || not (is_open (rtc.best_effort_state peer.link.epoch))
      then a
      else put a (send_datagram peer.link.epoch bytes)
]

-- What that task sends, for the amount it sees buffered.
unfoldable pub datagram_task : ℕ → List ℕ → Option (List ℕ)
datagram_task buffered_amount bytes =
    if ltb send_high_water buffered_amount then none else some bytes

unfoldable pub best_effort_to_all : Actor → Rtc → List PlayerInfo → List ℕ → Actor
best_effort_to_all a rtc [] bytes = a
best_effort_to_all a rtc (slot ∷ slots) bytes =
    best_effort_to_all
      (if not (slot.id == a.self_id) && slot.occupied
        then best_effort_to a rtc slot.id bytes
        else a)
      rtc slots bytes

-- The watch of the player's link, made on demand with the link that there is now.
unfoldable pub watch_link : Actor → ℕ → Actor
watch_link a to = elim (Map.get a.link_watch to) [
  | none ↦ record a {
    link_watch =
        Map.insert a.link_watch to
          (elim (Map.get a.peers to) [ none ↦ none | some peer ↦ some peer.link ]);
  }
  | some _ ↦ a
]

-- The queue to the player's sender task, made on demand.
unfoldable pub open_queue : Actor → ℕ → Actor
open_queue a to = elim (Map.get a.send_queues to) [
  | none ↦ put (record a { send_queues = Map.insert a.send_queues to tt }) (spawn_sender to)
  | some _ ↦ a
]

unfoldable pub handle_cmd : Actor → Rtc → Cmd → Actor
handle_cmd a rtc (send_reliable to bytes job) =
    if a.closed
    then put a (reply job closed_error)
    else put (open_queue (watch_link a to) to) (queue_job to bytes job)
handle_cmd a rtc (send_best_effort to bytes) = best_effort_to a rtc to bytes
handle_cmd a rtc (broadcast_best_effort bytes) = best_effort_to_all a rtc a.roster bytes
