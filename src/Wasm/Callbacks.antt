-- ===== src/Wasm/Callbacks.antt =====
-- The handlers that wasm/link.rs installs on a connection and its channels, `handle_peer_failure`
-- and `report_candidate_pair`.
use lobbylink.Base.{
  ℕ, ◌+◌, ◌*◌, Bool, false, List, [], Option, none, some, ltb, ◌==◌, if◌then◌else◌, ◌&&◌, ◌||◌, not,
  codes, text_eq, get_elem?,
}
use lobbylink.Base.Map
use lobbylink.Base.Outcome.{Outcome, ok, ◌>>=◌}
use lobbylink.Error.{max_peer_rebuilds}
use lobbylink.Events.{reliable, best_effort}
use lobbylink.Events as EventsOf
use lobbylink.Native.Receive.{receive}
use lobbylink.Protocol.{ice}
use lobbylink.Protocol.Values.{Json}
use lobbylink.Reassembly.{Reassembler}
use lobbylink.Roster.{PlayerInfo}
use lobbylink.Wasm.{
  Link, opened, drained, Inner, Web, put, spawn, emit, set_link, sleep, rebuild_sleep, pair_start,
}
use lobbylink.Wasm.Links.{deliver}
use lobbylink.Wasm.Signals.{send_signal, initiate_peer}
use lobbylink.Wasm.Stats.{candidate_pair}

-- What a handler of a link that is still open does; the handlers of a closed link are detached.
abbrev pub at_open : Inner → ℕ → (Link → Inner) → Inner
at_open a epoch run = elim (Map.get a.links epoch) [
  | none ↦ a
  | some l ↦ if l.closed then a else run l
]

-- `onicecandidate`; none is the end of the candidates.
unfoldable pub on_ice_candidate : Inner → Web → ℕ → Option Json → Inner
on_ice_candidate a web epoch none = a
on_ice_candidate a web epoch (some c) =
    at_open a epoch (λ l. send_signal a web l.player_id (ice (some c)))

unfoldable pub rebuilds : Inner → ℕ → ℕ
rebuilds a player_id = elim (Map.get a.rebuild_counts player_id) [ none ↦ 0 | some n ↦ n ]

-- Another failure: a rebuild after a pause, or the end of the attempts.
unfoldable pub count_failure : Inner → ℕ → ℕ → Inner
unfolding rebuilds
count_failure a player_id epoch =
    let count = rebuilds a player_id + 1 in
    let counted = record a { rebuild_counts = Map.insert a.rebuild_counts player_id count } in
    if ltb max_peer_rebuilds count
    then counted
    else spawn (put counted (sleep player_id epoch (1000 * count))) (rebuild_sleep player_id epoch)

-- `inner.peers.get(&player_id)`, as the link.
abbrev pub current_link : Inner → ℕ → Option Link
current_link a player_id = elim (Map.get a.peers player_id) [
  | none ↦ none
  | some epoch ↦ Map.get a.links epoch
]

unfoldable pub handle_peer_failure : Inner → ℕ → ℕ → Inner
handle_peer_failure a player_id epoch = if a.closed then a else (elim (current_link a player_id) [
  | none ↦ a
  | some l ↦
      if not (l.epoch == epoch) || not l.initiator then a else count_failure a player_id epoch
])

abbrev pub is_there : List PlayerInfo → ℕ → Bool
is_there roster player_id = elim (get_elem? roster player_id) [
  | none ↦ false
  | some slot ↦ slot.occupied && slot.connected
]

-- The end of the pause before a rebuild.
unfoldable pub retry_peer : Inner → Web → ℕ → ℕ → Inner
retry_peer a web player_id epoch = elim (current_link a player_id) [
  | none ↦ a
  | some l ↦
      if not a.closed
        && ((l.epoch == epoch && text_eq (web.connection_state epoch) (codes "failed"))
            && is_there a.roster player_id)
      then initiate_peer a web player_id
      else a
]

unfoldable pub connected_peer : Inner → ℕ → ℕ → Inner
connected_peer a player_id epoch =
    spawn (record a { rebuild_counts = Map.remove a.rebuild_counts player_id }) (pair_start epoch)

-- `onconnectionstatechange`
unfoldable pub on_state : Inner → Web → ℕ → Inner
on_state a web epoch =
    let state = web.connection_state epoch in
    at_open a epoch (λ l.
      let told = emit a (EventsOf.Event.peer_state l.player_id state) in
      if text_eq state (codes "connected")
      then connected_peer told l.player_id epoch
      else if text_eq state (codes "failed")
      then handle_peer_failure told l.player_id epoch
      else told)

-- The data of a message event.
pub data Incoming : Type 0 where
  buffer text : List ℕ → Incoming
  unexpected : Incoming

unfoldable pub message_bytes : Incoming → Option (List ℕ)
message_bytes (buffer bytes) = some bytes
message_bytes (text bytes) = some bytes
message_bytes unexpected = none

abbrev pub tell_reliable : Inner → ℕ → Option (List ℕ) → Inner
tell_reliable a from none = a
tell_reliable a from (some message) = emit a (EventsOf.Event.message from reliable message)

abbrev pub with_buffers : Link → Reassembler → Link
with_buffers l r = record l { reassembler = r }

-- A frame for an open link.
unfoldable pub take_frame : Inner → Web → ℕ → Link → List ℕ → Outcome ⊥ Inner
take_frame a web epoch l bytes = do
  (r, out) ← receive l.reassembler bytes web.now_ms
  ok (tell_reliable (set_link a epoch (with_buffers l r)) l.player_id out)

-- `link.reassembler` is borrowed by this handler alone, within one statement, so its `borrow_mut` does
-- not fail; the borrow of the shared state in `emit` is not modelled, as everywhere in the browser
-- backend.
unfoldable pub on_reliable : Inner → Web → ℕ → Incoming → Outcome ⊥ Inner
on_reliable a web epoch incoming = elim (Map.get a.links epoch) [
  | none ↦ ok a
  | some l ↦ if l.closed then ok a else (elim (message_bytes incoming) [
    | none ↦ ok a
    | some bytes ↦ take_frame a web epoch l bytes
  ])
]

unfoldable pub on_best_effort : Inner → ℕ → Incoming → Inner
on_best_effort a epoch incoming = at_open a epoch (λ l. elim (message_bytes incoming) [
  | none ↦ a
  | some bytes ↦ emit a (EventsOf.Event.message l.player_id best_effort bytes)
])

-- `onopen` and `onclose` of the reliable channel.
unfoldable pub on_channel : Inner → ℕ → Bool → Inner
on_channel a epoch is_open = elim (Map.get a.links epoch) [
  | none ↦ a
  | some l ↦ record a {
    links = Map.insert a.links epoch (record l { open_waiters = [] });
    mail = deliver (opened is_open) l.open_waiters a.mail;
  }
]

-- `onbufferedamountlow`
unfoldable pub on_low : Inner → ℕ → Inner
on_low a epoch = elim (Map.get a.links epoch) [
  | none ↦ a
  | some l ↦ record a {
    links = Map.insert a.links epoch (record l { drain_waiters = [] });
    mail = deliver drained l.drain_waiters a.mail;
  }
]

-- The statistics have come. They are reported for the link that is still the player's.
unfoldable pub report_pair : Inner → Web → ℕ → Inner
report_pair a web epoch = at_open a epoch (λ l.
    if not web.fulfilled then a else (elim (candidate_pair web.stats) [
      | none ↦ a
      | some (local, remote) ↦ elim (Map.get a.peers l.player_id) [
        | none ↦ a
        | some current ↦
            if current == epoch
            then emit a (EventsOf.Event.candidate_pair l.player_id local remote)
            else a
      ]
    ]))
