-- ===== src/Native/Actor/Peers.antt =====
-- The parts of actor.rs that make and end the links to peers, and report events.
use lobbylink.Base.{ℕ, ◌+◌, Bool, List, [], ◌∷◌, Option, none, some, if◌then◌else◌}
use lobbylink.Base.Map
use lobbylink.Events.{Event}
use lobbylink.Reassembly
use lobbylink.Native.Actor.{Link, Peer, Rtc, Actor, put, event, open_connection, close_connection}

unfoldable pub emit : Actor → Event → Actor
emit a e = if a.closed then a else put a (event e)

unfoldable pub sync_roster : Actor → Actor
sync_roster a = record a {
  shared = record { started = a.shared.started; closed = a.shared.closed; roster = a.roster };
}

-- `close_peer` on the peer that the map has.
unfoldable pub drop_peer : Actor → ℕ → Peer → Actor
drop_peer a player_id peer = record a {
  peers = Map.remove a.peers player_id;
  closed_links = peer.link.epoch ∷ a.closed_links;
  link_watch = elim (Map.get a.link_watch player_id) [
    | none ↦ a.link_watch
    | some _ ↦ Map.insert a.link_watch player_id none
  ];
  log = close_connection peer.link.epoch ∷ a.log;
}

unfoldable pub close_peer : Actor → ℕ → Actor
close_peer a player_id = elim (Map.get a.peers player_id) [
  | none ↦ a
  | some peer ↦ drop_peer a player_id peer
]

unfoldable pub close_peers : List ℕ → Actor → Actor
close_peers [] a = a
close_peers (id ∷ ids) a = close_peers ids (close_peer a id)

unfoldable pub teardown_peers : Actor → Actor
teardown_peers a =
    let a' = close_peers (Map.keys a.peers) a in record a' { link_watch = []; send_queues = [] }

abbrev pub new_link : Actor → ℕ → Bool → Link
new_link a player_id initiator = record {
  player_id = player_id;
  initiator = initiator;
  epoch = a.epoch_counter + 1;
}

-- The success of `create_link`, after the old link is closed.
unfoldable pub add_link : Actor → ℕ → Bool → Actor
add_link a player_id initiator = record a {
  epoch_counter = a.epoch_counter + 1;
  peers = Map.insert a.peers player_id (record {
    link = new_link a player_id initiator;
    reassembler = Reassembly.new;
    pending_candidates = some [];
  });
  link_watch = Map.insert a.link_watch player_id (some (new_link a player_id initiator));
  log = open_connection (a.epoch_counter + 1) a.ice_servers a.force_relay ∷ a.log;
}

unfoldable pub create_link : Actor → Rtc → ℕ → Bool → Actor × Option Link
create_link a rtc player_id initiator =
    let a' = close_peer a player_id in
    if rtc.new_link_ok
    then (add_link a' player_id initiator, some (new_link a' player_id initiator))
    else (record a' { epoch_counter = a'.epoch_counter + 1 }, none)
