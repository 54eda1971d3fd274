-- ===== src/Wasm/Unseen.antt =====
-- The parts of clients/rust/src/wasm in which the application sees no difference, and what a message
-- of the lobby changes.
use lobbylink.Base.{
  ℕ, ◌≡◌, refl, ap, ◌∙◌, Bool, true, false, List, [], ◌∷◌, ◌++◌, Option, ltb, ◌==◌, ◌&&◌, arith,
  if_both, lookup_cases,
}
use lobbylink.Base.Map
use lobbylink.Events.{Event}
use lobbylink.Roster.{PlayerInfo}
use lobbylink.Wasm.{SendJob, SendQueue, Output, event, Inner, Web, emit}
use lobbylink.Wasm.Links.{
  close_link, close_links, close_peer, values, drop_jobs, drop_queues, teardown_peers, add_link,
  create_link,
}
use lobbylink.Wasm.Signals.{initiate_peer}
use lobbylink.Wasm.Lobby.{reset_peer}

abbrev event_in : Output → List Event
event_in (event e) = e ∷ []
event_in _ = []

-- The events in the log, newest first.
unfoldable pub events : List Output → List Event
events [] = []
events (o ∷ log) = event_in o ++ events log

-- What the application sees.
pub record View : Type 0 where
  pub roster : List PlayerInfo
  pub closed : Bool
  pub reported : List Event

abbrev pub seen_as : List PlayerInfo → Bool → List Event → View
seen_as roster closed reported = record { roster = roster; closed = closed; reported = reported }

abbrev pub view : Inner → View
view a = seen_as a.roster a.closed (events a.log)

close_link_unseen : (a : Inner) (e : ℕ) → view (close_link a e) ≡ view a
unfolding close_link events
close_link_unseen a e =
    lookup_cases (λ (b : Inner). view b ≡ view a) (Map.get a.links e) _ _ (λ _. refl)
      (λ l _. if_both (λ (b : Inner). view b ≡ view a) l.closed _ _ refl refl)

close_links_unseen : (es : List ℕ) (a : Inner) → view (close_links es a) ≡ view a
unfolding close_links
close_links_unseen [] a = refl
close_links_unseen (e ∷ es) a = close_links_unseen es (close_link a e) ∙ close_link_unseen a e

pub close_peer_unseen : (a : Inner) (k : ℕ) → view (close_peer a k) ≡ view a
unfolding close_peer
close_peer_unseen a k =
    lookup_cases (λ (b : Inner). view b ≡ view a) (Map.get a.peers k) _ _ (λ _. refl)
      (λ e _. close_link_unseen (record a { peers = Map.remove a.peers k }) e)

events-drop_jobs :
    (jobs : List SendJob) (log : List Output) → events (drop_jobs jobs log) ≡ events log
unfolding drop_jobs events
events-drop_jobs [] log = refl
events-drop_jobs (job ∷ jobs) log = events-drop_jobs jobs _

events-drop_queues :
    (queues : List SendQueue) (log : List Output) → events (drop_queues queues log) ≡ events log
unfolding drop_queues
events-drop_queues [] log = refl
events-drop_queues (q ∷ queues) log = events-drop_queues queues _ ∙ events-drop_jobs q.items log

pub teardown_peers_unseen : (a : Inner) → view (teardown_peers a) ≡ view a
unfolding teardown_peers
teardown_peers_unseen a =
    let drained : Inner = record a { peers = []; link_waiters = []; send_queues = [] } in
    let shut : Inner = close_links (values a.peers) drained in
    ap (seen_as shut.roster shut.closed) (events-drop_queues (values a.send_queues) shut.log)
    ∙ close_links_unseen (values a.peers) drained

create_link_unseen :
    (a : Inner) (web : Web) (k : ℕ) (i : Bool) → view (create_link a web k i).0 ≡ view a
unfolding create_link add_link events
create_link_unseen a web k i =
    let shut = close_peer_unseen a k in
    if_both (λ (r : Inner × Option ℕ). view r.0 ≡ view a) (web.config_ok && web.connection_ok) _ _
      shut shut

initiate_peer_unseen : (a : Inner) (web : Web) (k : ℕ) → view (initiate_peer a web k) ≡ view a
unfolding initiate_peer
initiate_peer_unseen a web k =
    let made = create_link_unseen a web k true in
    if_both (λ (b : Inner). view b ≡ view a) a.closed _ _ refl
      (lookup_cases (λ (b : Inner). view b ≡ view a) (create_link a web k true).1 _ _ (λ _. made)
        (λ e _. made))

pub reset_peer_unseen : (a : Inner) (web : Web) (k : ℕ) → view (reset_peer a web k) ≡ view a
unfolding reset_peer
reset_peer_unseen a web k =
    let shut : Inner = close_peer a k in
    let reset : Inner = record shut { rebuild_counts = Map.remove shut.rebuild_counts k } in
    if_both (λ (b : Inner). view b ≡ view a) (a.self_id == k) _ _ refl
      (if_both (λ (b : Inner). view b ≡ view a) (ltb a.self_id k) _ _
        (initiate_peer_unseen reset web k ∙ close_peer_unseen a k) (close_peer_unseen a k))

-- A report in an open game.
pub emit_seen :
    (a : Inner) (e : Event)
    → a.closed ≡ false
    → view (emit a e) ≡ seen_as a.roster false (e ∷ events a.log)
unfolding emit events
emit_seen a e live = ground (arith, live)
