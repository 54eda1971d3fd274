-- ===== src/Native/Actor/Loop.antt =====
-- `Actor::run` and `Actor::shutdown`: the offers at the start, and the loop over what arrives.
use lobbylink.Base.{ℕ, Bool, true, false, List, [], ◌∷◌, ltb, ◌==◌, if◌then◌else◌, ◌&&◌, not}
use lobbylink.Base.Outcome.{Outcome, ok, ◌>>=◌}
use lobbylink.Protocol.{leave}
use lobbylink.Roster.{PlayerInfo}
use lobbylink.Native.Actor.{Rtc, Actor, put, ws_send, ws_ping, ws_close, storage_clear, close_done}
use lobbylink.Native.Actor.Peers.{teardown_peers}
use lobbylink.Native.Actor.Signals.{initiate_peer}
use lobbylink.Native.Actor.Messages.{Internal, Cmd, handle_internal, handle_cmd}

unfoldable pub shutdown : Actor → Actor
shutdown a =
    let closing = record a {
      closed = true;
      shared = record { started = a.shared.started; closed = true; roster = a.shared.roster };
      log = ws_close ∷ ws_send leave ∷ a.log;
    } in
    let torn = teardown_peers closing in put torn (storage_clear torn.storage_path)

-- `p.id != self_id && p.occupied && p.connected && self_id < p.id`
abbrev pub is_target : ℕ → PlayerInfo → Bool
is_target self_id p = (not (p.id == self_id) && (p.occupied && p.connected)) && ltb self_id p.id

-- The targets are taken from the roster before the first offer; each offer has its own answers of
-- the webrtc crate.
unfoldable pub offer_all : Actor → (ℕ → Rtc) → List PlayerInfo → Actor
offer_all a rtc [] = a
offer_all a rtc (p ∷ roster) =
    offer_all (if is_target a.self_id p then initiate_peer a (rtc p.id) p.id else a) rtc roster

unfoldable pub start : Actor → (ℕ → Rtc) → Actor
start a rtc = offer_all a rtc a.roster

-- What the loop of `run` selects: a tick (and whether the ping could be sent), a close command with
-- or without a waiter, another command, the end of the commands, or an internal message.
pub data Arrival : Type 0 where
  tick : Bool → Arrival
  close : Bool → Arrival
  cmd : Cmd → Arrival
  cmds_end : Arrival
  internal : Internal → Arrival

pub record Loop : Type 0 where
  pub actor : Actor
  pub signaling_open : Bool
  pub stopped : Bool

-- One round; a tick is selected only under its guard.
unfoldable pub round : Actor → Bool → Rtc → Arrival → Outcome ⊥ Loop
round a signaling rtc (tick sent) = ok (
    if a.keepalive && signaling && not a.closed
    then record { actor = put a ws_ping; signaling_open = sent; stopped = false }
    else record { actor = a; signaling_open = signaling; stopped = false })
round a signaling rtc (close waiter) =
    let down = shutdown a in
    ok (record {
      actor = if waiter then put down close_done else down;
      signaling_open = signaling;
      stopped = true;
    })
round a signaling rtc (cmd c) =
    ok (record { actor = handle_cmd a rtc c; signaling_open = signaling; stopped = false })
round a signaling rtc cmds_end =
    ok (record { actor = shutdown a; signaling_open = signaling; stopped = true })
round a signaling rtc (internal i) = do
  a' ← handle_internal a rtc i
  ok (record { actor = a'; signaling_open = signaling; stopped = false })

unfoldable pub run : Loop → List (Arrival × Rtc) → Outcome ⊥ Loop
run loop [] = ok loop
run loop ((arrival, rtc) ∷ rest) =
    if loop.stopped
    then ok loop
    else (do next ← round loop.actor loop.signaling_open rtc arrival; run next rest)
