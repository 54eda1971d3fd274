-- ===== src/Native/Link.antt =====
-- clients/rust/src/native/link.rs: the sender task of one player. What the task sees of the rest of
-- the program and of the webrtc crate, at each point where it looks, is a list of observations;
-- a list that ends is a task that still waits. The timer is part of the observations.
pub mod Chunks
pub mod Frames
pub mod Transfer
pub mod Progress
pub mod Queue
pub mod Serial
mod Examples
use lobbylink.Base.{
  ℕ, zero, suc, ◌+◌, ◌-◌, ◌*◌, ◌%◌, ◌^◌, min, Bool, true, false, List, [], ◌∷◌, ◌++◌, Option, none,
  some, leb, if◌then◌else◌, ◌&&◌, not, length, take, drop, Text, codes, decimal,
}
use lobbylink.Base.Outcome.{Outcome, ok, err, panic, ◌>>=◌}
use lobbylink.Error.{LobbyError, new, send_high_water, send_low_water, channel_timeout_ms}
use lobbylink.Framing.{make_frame, chunk_count, chunk_payload}

-- `RTCDataChannelState`
pub data ChannelState : Type 0 where
  unspecified connecting open_channel closing closed_channel : ChannelState

-- The task gave up with an error, or the observations end before it is done.
pub data Stop : Type 0 where
  failed : LobbyError → Stop
  waiting : Stop

-- One look of the task: has the timeout around the wait run out, `link.is_closed()`,
-- `reliable.ready_state()`, `reliable.buffered_amount()`, and does `reliable.send` succeed.
pub record Look : Type 0 where
  pub timed_out : Bool
  pub closed : Bool
  pub ready_state : ChannelState
  pub buffered_amount : ℕ
  pub send_ok : Bool

abbrev pub Wait : Type 0 → Type 0
Wait A = Outcome Stop A

-- What the watch of the link shows: a value (a link is given by the epoch of its session, with its
-- closed flag), the end of the watch, or the timeout.
pub data Watched : Type 0 where
  shows : Option (ℕ × Bool) → Watched
  dropped timed_out : Watched

abbrev pub closed_error : LobbyError
closed_error = new (codes "closed") (codes "game is closed")

abbrev no_session : ℕ → LobbyError
no_session player_id = new (codes "channel-timeout") (
    codes "no WebRTC session with player "
    ++ (decimal player_id ++ (codes " within " ++ (decimal channel_timeout_ms ++ codes "ms"))))

-- The link of the player, once there is one that is not closed.
unfoldable pub wait_link : ℕ → List Watched → Wait ℕ
wait_link player_id [] = err waiting
wait_link player_id (shows none ∷ rest) = wait_link player_id rest
wait_link player_id (shows (some (epoch, closed)) ∷ rest) =
    let again = wait_link player_id rest in if not closed then ok epoch else again
wait_link player_id (dropped ∷ rest) = err (failed closed_error)
wait_link player_id (timed_out ∷ rest) = err (failed (no_session player_id))

abbrev peer_closed : Text → ℕ → LobbyError
peer_closed how player_id =
    new (codes "peer-closed") (codes "channel to player " ++ (decimal player_id ++ how))

abbrev open_timeout : ℕ → LobbyError
open_timeout player_id =
    new (codes "channel-timeout")
      (codes "timed out opening channel to player " ++ decimal player_id)

-- Waits for the reliable channel to open, under its timeout; gives the looks that are left.
unfoldable pub wait_reliable_open : ℕ → List Look → Wait (List Look)
wait_reliable_open player_id [] = err waiting
wait_reliable_open player_id (look ∷ rest) =
    let again = wait_reliable_open player_id rest in
    if look.timed_out
    then err (failed (open_timeout player_id))
    else if look.closed
    then err (failed (peer_closed (codes " is closed") player_id))
    else (elim look.ready_state [
      | open_channel ↦ ok rest
      | connecting ↦ again
      | unspecified ↦ again
      | _ ↦ err (failed (peer_closed (codes " closed") player_id))
    ])

-- The loop of `wait_drain`.
unfoldable pub drain_loop : ℕ → List Look → Wait (List Look)
drain_loop player_id [] = err waiting
drain_loop player_id (look ∷ rest) =
    let again = drain_loop player_id rest in
    if look.closed
    then err (failed (peer_closed (codes " closed") player_id))
    else if leb look.buffered_amount send_low_water
    then ok rest
    else again

unfoldable pub wait_drain : ℕ → List Look → Wait (List Look)
wait_drain player_id [] = err waiting
wait_drain player_id (look ∷ rest) =
    if leb look.buffered_amount send_high_water then ok rest else drain_loop player_id rest

-- `&data[start..end]`
unfoldable pub slice : List ℕ → ℕ → ℕ → Wait (List ℕ)
slice xs start end =
    if leb start end && leb end (length xs) then ok (take (end - start) (drop start xs)) else panic

abbrev mid_send : ℕ → LobbyError
mid_send player_id =
    new (codes "send-failed")
      (codes "connection to player " ++ (decimal player_id ++ codes " closed mid-send"))

-- The text of the transport's own error is left out.
abbrev send_error : ℕ → LobbyError
send_error player_id =
    new (codes "send-failed") (codes "send to player " ++ (decimal player_id ++ codes " failed: "))

-- `reliable.send(frame)`
unfoldable pub transmit : ℕ → List Look → Wait (List Look)
transmit player_id [] = err waiting
transmit player_id (look ∷ rest) =
    if look.send_ok then ok rest else err (failed (send_error player_id))

abbrev check_open : ℕ → List Look → Wait (List Look)
check_open player_id [] = err waiting
check_open player_id (look ∷ rest) =
    if look.closed then err (failed (mid_send player_id)) else ok rest

-- One round of the loop of `send_one` up to the call of `reliable.send`: the frame to send.
unfoldable pub prepare : ℕ → List ℕ → ℕ → ℕ → ℕ → List Look → Wait (List ℕ × List Look)
unfolding slice
prepare player_id bytes msg_id total seq looks = do
  looks' ← check_open player_id looks
  looks'' ← wait_drain player_id looks'
  let start = seq * chunk_payload
  let end = min (start + chunk_payload) (length bytes)
  payload ← slice bytes start end
  ok (make_frame msg_id seq total payload, looks'')

-- The loop, with the rounds that are left: the frames handed to the transport, and how it ended.
unfoldable pub send_loop : ℕ → List ℕ → ℕ → ℕ → ℕ → ℕ → List Look → List (List ℕ) × Wait (List Look)
send_loop player_id bytes msg_id total zero seq looks = ([], ok looks)
send_loop player_id bytes msg_id total (suc rounds) seq looks =
    elim (prepare player_id bytes msg_id total seq looks) [
      | ok (frame, looks') ↦ elim (transmit player_id looks') [
        | ok looks'' ↦
            let rest = send_loop player_id bytes msg_id total rounds (suc seq) looks'' in
            (frame ∷ rest.0, rest.1)
        | err e ↦ ([], err e)
        | panic ↦ ([], panic)
      ]
      | err e ↦ ([], err e)
      | panic ↦ ([], panic)
    ]

-- `send_one` once it has its link: the frames sent, the new `next_msg_id`, and the result.
pub record Sent : Type 0 where
  pub frames : List (List ℕ)
  pub next_msg_id : ℕ
  pub result : Wait (List Look)

unfoldable pub send_one : ℕ → ℕ → List ℕ → List Look → Sent
send_one player_id next_msg_id bytes looks = elim (wait_reliable_open player_id looks) [
  | ok looks' ↦
      let total = chunk_count (length bytes) in
      let done = send_loop player_id bytes next_msg_id total total 0 looks' in
      record { frames = done.0; next_msg_id = (next_msg_id + 1) % 2 ^ 32; result = done.1 }
  | err e ↦ record { frames = []; next_msg_id = next_msg_id; result = err e }
  | panic ↦ record { frames = []; next_msg_id = next_msg_id; result = panic }
]
