-- ===== src/Native/Game/Joining.antt =====
-- What a successful `connect` gives.
use mathlib.Core.Path.{subst}
use lobbylink.Base.{
  ℕ, ◌≡◌, refl, ap, ◌∙◌, Bool, true, List, [], ◌∷◌, ◌++◌, none, some, All, map, Text, not,
}
use lobbylink.Base.Outcome.{ok, >>=-eq-ok, ok-injective}
use lobbylink.Protocol.{JoinedMsg, joined, error}
use lobbylink.Roster.{roster_from_snapshot}
use lobbylink.Roster.Laws.{IsRoster, roster_from_snapshot-IsRoster}
use lobbylink.Native.Actor.{Rtc, new_actor}
use lobbylink.Native.Actor.Loop.{start, Loop}
use lobbylink.Native.Actor.Invariant.{IsSound}
use lobbylink.Native.Actor.Invariant.Reachable.{Reachable, Reachable-IsSound}
use lobbylink.Native.Game.Storage.{Files, save}
use lobbylink.Native.Game.Connect.{
  ConnectOptions, Item, text, closing, other_frame, ws_error, ws_end, time_over, Net, Connected,
  await_joined, open_socket, set_up, connect, rtc_server,
}
use lobbylink.Native.Game.Tokens.{save_there}

-- What the handshake passes over.
abbrev pub IsSkipped : Item → Type 0
IsSkipped (text (some (joined msg))) = ⊥
IsSkipped (text (some (error code message))) = ⊥
IsSkipped (text (some msg)) = Unit
IsSkipped other_frame = Unit
IsSkipped _ = ⊥

await_joined_split :
    (url : Text) (items : List Item) (msg : JoinedMsg) (left : List Item)
    → await_joined url items ≡ ok (msg, left)
    → (before : List Item) × (items ≡ before ++ (text (some (joined msg)) ∷ left))
      × All IsSkipped before
unfolding await_joined
await_joined_split url [] msg left h = cc
await_joined_split url (text (some (joined m)) ∷ items) msg left h =
    ([], ap (λ p. text (some (joined p.0)) ∷ p.1) (ok-injective (m, items) (msg, left) h), tt)
await_joined_split url (text (some (error code message)) ∷ items) msg left h = cc
await_joined_split url (text (some m) ∷ items) msg left h =
    let (before, split, skipped) = await_joined_split url items msg left h in
    (text (some m) ∷ before, ap (λ l. text (some m) ∷ l) split, (tt, skipped))
await_joined_split url (other_frame ∷ items) msg left h =
    let (before, split, skipped) = await_joined_split url items msg left h in
    (other_frame ∷ before, ap (λ l. other_frame ∷ l) split, (tt, skipped))
await_joined_split url (text none ∷ items) msg left h = cc
await_joined_split url (closing code ∷ items) msg left h = cc
await_joined_split url (ws_error ∷ items) msg left h = cc
await_joined_split url (ws_end ∷ items) msg left h = cc
await_joined_split url (time_over ∷ items) msg left h = cc

connect-set_up :
    (opts : ConnectOptions) (files : Files) (can_write : Bool) (net : Net) (c : Connected)
    → connect opts files can_write net ≡ ok c
    → (url : Text) × (msg : JoinedMsg) × (left : List Item) × (await_joined url net.items
        ≡ ok (msg, left))
      × (set_up opts files can_write msg left ≡ c)
unfolding connect
connect-set_up opts files can_write net c h =
    let (url, _, joins) = >>=-eq-ok (open_socket opts net) _ h in
    let ((msg, left), waited, made) = >>=-eq-ok (await_joined url net.items) _ joins in
    (url, msg, left, waited, ok-injective (set_up opts files can_write msg left) c made)

-- The parts of a connected game that come from the joined message.
pub record IsJoined (opts : ConnectOptions) (files : Files) (can_write : Bool) (net : Net)
    (msg : JoinedMsg) (c : Connected) : Type 0 where
  pub before : List Item
  pub received : net.items ≡ before ++ (text (some (joined msg)) ∷ c.left)
  pub skipped : All IsSkipped before
  pub slot : (c.game.self_id ≡ msg.self_id) × (c.game.max_players ≡ msg.max_players)
  pub token : c.game.resume_token ≡ msg.resume_token
  pub stored :
      (path : Text)
      → opts.storage_path ≡ some path
      → can_write ≡ true
      → c.files path ≡ some msg.resume_token
  pub same_session :
      (c.actor.self_id ≡ c.game.self_id)
      × (c.actor.max_players ≡ c.game.max_players)
      × IsRoster c.game.max_players c.actor.roster
      × (c.actor.shared.roster ≡ c.actor.roster)

set_up-IsJoined :
    (opts : ConnectOptions) (files : Files) (can_write : Bool) (net : Net) (msg : JoinedMsg)
    (left before : List Item)
    → net.items ≡ before ++ (text (some (joined msg)) ∷ left)
    → All IsSkipped before
    → IsJoined opts files can_write net msg (set_up opts files can_write msg left)
unfolding set_up new_actor save
set_up-IsJoined opts files can_write net msg left before split skipped = record {
  before = before;
  received = split;
  skipped = skipped;
  slot = (refl, refl);
  token = refl;
  stored = λ path p w.
      ap (λ o. save files can_write o msg.resume_token path) p
      ∙ (ap (λ b. save files b (some path) msg.resume_token path) w
          ∙ save_there files path msg.resume_token);
  same_session = (refl, refl, roster_from_snapshot-IsRoster msg.max_players msg.players, refl);
}

set_up-IsSound :
    (opts : ConnectOptions) (files : Files) (can_write : Bool) (msg : JoinedMsg) (left : List Item)
    (rtc : ℕ → Rtc) (loop : Loop)
    → Reachable (start (set_up opts files can_write msg left).actor rtc) loop
    → IsSound
        (set_up opts files can_write msg left).game.self_id
        (set_up opts files can_write msg left).game.max_players
        loop.actor
unfolding set_up
set_up-IsSound opts files can_write msg left rtc loop reach =
    Reachable-IsSound msg.self_id msg.max_players (roster_from_snapshot msg.max_players msg.players)
      msg.started (map rtc_server (msg.ice_servers ++ opts.ice_servers)) opts.force_relay
      opts.storage_path (not opts.disable_keepalive) rtc loop
      (roster_from_snapshot-IsRoster msg.max_players msg.players) reach

-- A game that `connect` returns is the one of the first joined message, before which only other
-- frames and lobby messages without an error came: its slot, its room size and its token are the
-- message's, the token is in the file if that could be written, and the actor has the same slot and
-- a roster with one entry for each slot of the room.
pub connect-IsJoined :
    (opts : ConnectOptions) (files : Files) (can_write : Bool) (net : Net) (c : Connected)
    → connect opts files can_write net ≡ ok c
    → (msg : JoinedMsg) × IsJoined opts files can_write net msg c
connect-IsJoined opts files can_write net c h =
    let (url, msg, left, waited, made) = connect-set_up opts files can_write net c h in
    let (before, split, skipped) = await_joined_split url net.items msg left waited in
    (
      msg,
      subst (IsJoined opts files can_write net msg) made
          (set_up-IsJoined opts files can_write net msg left before split skipped),
    )

-- From a game that `connect` returns, every state that its actor reaches keeps the invariant of the
-- session, for the slot and the room size that the game reports.
pub connect-IsSound :
    (opts : ConnectOptions) (files : Files) (can_write : Bool) (net : Net) (c : Connected)
    (rtc : ℕ → Rtc) (loop : Loop)
    → connect opts files can_write net ≡ ok c
    → Reachable (start c.actor rtc) loop
    → IsSound c.game.self_id c.game.max_players loop.actor
connect-IsSound opts files can_write net c rtc loop h reach =
    let (url, msg, left, waited, made) = connect-set_up opts files can_write net c h in
    subst
      (λ (d : Connected).
        Reachable (start d.actor rtc) loop → IsSound d.game.self_id d.game.max_players loop.actor)
      made (λ r. set_up-IsSound opts files can_write msg left rtc loop r) reach
