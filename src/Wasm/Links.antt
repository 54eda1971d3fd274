-- ===== src/Wasm/Links.antt =====
-- The links of wasm/link.rs and wasm/inner.rs: made, closed, and torn down.
use lobbylink.Base.{
  ℕ, ◌+◌, Bool, true, false, List, [], ◌∷◌, Option, none, some, if◌then◌else◌, ◌&&◌, codes,
}
use lobbylink.Base.Map
use lobbylink.Base.Map.{HashMap}
use lobbylink.Base.Outcome.{err}
use lobbylink.Error.{LobbyError, new}
use lobbylink.Reassembly
use lobbylink.Wasm.{
  Link, SendJob, SendQueue, Mail, opened, drained, dropped, Output, Inner, Web, close_connection,
  open_connection, reply,
}

abbrev pub closed_error : LobbyError
closed_error = new (codes "closed") (codes "game is closed")

-- `waiter.send(…)` for each waiter.
unfoldable pub deliver : Mail → List ℕ → HashMap Mail → HashMap Mail
deliver m [] mail = mail
deliver m (w ∷ waiters) mail = deliver m waiters (Map.insert mail w m)

abbrev pub closed_link : Link → Link
closed_link l = record l { closed = true; open_waiters = []; drain_waiters = [] }

-- `Link::close`
unfoldable pub close_link : Inner → ℕ → Inner
close_link a epoch = elim (Map.get a.links epoch) [
  | none ↦ a
  | some l ↦ if l.closed then a else record a {
    links = Map.insert a.links epoch (closed_link l);
    mail = deliver drained l.drain_waiters (deliver (opened false) l.open_waiters a.mail);
    log = close_connection epoch ∷ a.log;
  }
]

unfoldable pub close_links : List ℕ → Inner → Inner
close_links [] a = a
close_links (epoch ∷ epochs) a = close_links epochs (close_link a epoch)

unfoldable pub close_peer : Inner → ℕ → Inner
close_peer a player_id = elim (Map.get a.peers player_id) [
  | none ↦ a
  | some epoch ↦ close_link (record a { peers = Map.remove a.peers player_id }) epoch
]

unfoldable pub values {ℓ} : {V : Type ℓ} → HashMap V → List V
values [] = []
values ((k, v) ∷ m) = v ∷ values m

unfoldable pub drop_waiters : List (List ℕ) → HashMap Mail → HashMap Mail
drop_waiters [] mail = mail
drop_waiters (waiters ∷ rest) mail = drop_waiters rest (deliver dropped waiters mail)

-- The callers of the jobs that are dropped see that the game is closed. Here they see it at once; in
-- the code a queue whose worker awaits is dropped only when that await is over.
unfoldable pub drop_jobs : List SendJob → List Output → List Output
drop_jobs [] log = log
drop_jobs (job ∷ jobs) log = drop_jobs jobs (reply job.done (err closed_error) ∷ log)

unfoldable pub drop_queues : List SendQueue → List Output → List Output
drop_queues [] log = log
drop_queues (queue ∷ queues) log = drop_queues queues (drop_jobs queue.items log)

unfoldable pub teardown_peers : Inner → Inner
teardown_peers a =
    let drained = record a { peers = []; link_waiters = []; send_queues = [] } in
    let shut = close_links (values a.peers) drained in
    record shut {
      mail = drop_waiters (values a.link_waiters) shut.mail;
      log = drop_queues (values a.send_queues) shut.log;
    }

abbrev pub new_link : Inner → ℕ → Bool → Link
new_link a player_id initiator = record {
  player_id = player_id;
  initiator = initiator;
  epoch = a.epoch_counter + 1;
  closed = false;
  next_msg_id = 0;
  reassembler = Reassembly.new;
  pending_candidates = some [];
  open_waiters = [];
  drain_waiters = [];
}

abbrev waiters_of : Option (List ℕ) → List ℕ
waiters_of none = []
waiters_of (some waiters) = waiters

-- The success of `create_link`, after the old link is closed.
unfoldable pub add_link : Inner → ℕ → Bool → Inner
add_link a player_id initiator = record a {
  epoch_counter = a.epoch_counter + 1;
  peers = Map.insert a.peers player_id (a.epoch_counter + 1);
  links = Map.insert a.links (a.epoch_counter + 1) (new_link a player_id initiator);
  link_waiters = Map.remove a.link_waiters player_id;
  mail =
      deliver (Mail.link (a.epoch_counter + 1)) (waiters_of (Map.get a.link_waiters player_id))
        a.mail;
  log = open_connection (a.epoch_counter + 1) a.ice_servers a.force_relay ∷ a.log;
}

-- The link is given by its epoch; none stands for an error, which the callers only log.
unfoldable pub create_link : Inner → Web → ℕ → Bool → Inner × Option ℕ
create_link a web player_id initiator =
    let a' = close_peer a player_id in
    if web.config_ok && web.connection_ok
    then (add_link a' player_id initiator, some (a'.epoch_counter + 1))
    else (record a' { epoch_counter = a'.epoch_counter + 1 }, none)
