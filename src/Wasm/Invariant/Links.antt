-- ===== src/Wasm/Invariant/Links.antt =====
-- Making links, closing one, and closing all keep the invariant.
use lobbylink.Base.{
  ℕ, ◌≡◌, refl, Bool, true, false, List, [], ◌∷◌, Option, none, some, ltb, ◌&&◌, arith, if_both,
  if_cases, lookup_cases, inl, inr,
}
use lobbylink.Base.Map
use lobbylink.Base.Map.{HashMap, get-insert, get-insert_inv, get-remove}
use lobbylink.Roster.Laws.{IsRoster}
use lobbylink.Native.Actor.{contains}
use lobbylink.Wasm.{Link, Inner, Web, set_link}
use lobbylink.Wasm.Links.{
  close_link, closed_link, close_links, close_peer, values, teardown_peers, add_link, create_link,
}
use lobbylink.Wasm.Invariant.{IsLink, IsLinked, IsSound}
use lobbylink.Wasm.Invariant.Linked.{
  IsSame, update-IsLinked, close-IsLinked, skip-IsLinked, add-IsLinked,
}

-- No player has a link, and the links that are still open are among `epochs`.
record IsDraining (self_id max_players : ℕ) (epochs : List ℕ) (a : Inner) : Type 0 where
  self : a.self_id ≡ self_id
  slots_kept : a.max_players ≡ max_players
  roster_kept : IsRoster max_players a.roster
  alone : (k : ℕ) → Map.get a.peers k ≡ none
  each :
      (epoch : ℕ) (l : Link)
      → Map.get a.links epoch ≡ some l
      → IsLink self_id a.epoch_counter epoch l
  listed :
      (epoch : ℕ) (l : Link)
      → Map.get a.links epoch ≡ some l
      → l.closed ≡ false
      → contains epochs epoch ≡ true

contains-values : (m : HashMap ℕ) (k v : ℕ) → Map.get m k ≡ some v → contains (values m) v ≡ true
unfolding contains values Map.get
contains-values [] k v h = cc
contains-values ((j, w) ∷ m) k v h = ground (arith, contains-values m k v)

close_peer_gone :
    (a : Inner) (k : ℕ)
    → (Map.get (close_peer a k).peers k ≡ none) × ((close_peer a k).closed ≡ a.closed)
unfolding close_peer close_link
close_peer_gone a k = ground (arith, get-remove a.peers k k)

module _ {self_id max_players : ℕ} where
  -- A link is changed, but for its player and its closed flag.
  pub set_link-IsSound :
      (a : Inner) (epoch : ℕ) (l l' : Link)
      → Map.get a.links epoch ≡ some l
      → IsSame self_id a.epoch_counter epoch l l'
      → IsSound self_id max_players a
      → IsSound self_id max_players (set_link a epoch l')
  set_link-IsSound a epoch l l' there same v = record {
    self = v.self;
    slots_kept = v.slots_kept;
    roster_kept = v.roster_kept;
    linked = update-IsLinked self_id a.epoch_counter a.peers a.links epoch l l' there same v.linked;
    shut = v.shut;
  }

  pub close_peer-IsSound :
      (a : Inner) (k : ℕ)
      → IsSound self_id max_players a
      → IsSound self_id max_players (close_peer a k)
  unfolding close_peer close_link
  close_peer-IsSound a k v =
      lookup_cases (IsSound self_id max_players) (Map.get a.peers k) a _ (λ _. v)
        (λ epoch held.
          let (l, there, id, is_open) = v.linked.held k epoch held in
          rw (there, close_link)
            (rw is_open (record {
              self = v.self;
              slots_kept = v.slots_kept;
              roster_kept = v.roster_kept;
              linked =
                  close-IsLinked self_id a.epoch_counter a.peers a.links k epoch l held there
                    v.linked;
              shut = λ h j. ground (arith, v.shut h j, get-remove a.peers k j);
            })))

  drain_one :
      (a : Inner) (epoch : ℕ) (epochs : List ℕ)
      → IsDraining self_id max_players (epoch ∷ epochs) a
      → IsDraining self_id max_players epochs (close_link a epoch)
  unfolding close_link contains
  drain_one a epoch epochs v =
      lookup_cases (IsDraining self_id max_players epochs) (Map.get a.links epoch) a _
        (λ out. record {
          self = v.self;
          slots_kept = v.slots_kept;
          roster_kept = v.roster_kept;
          alone = v.alone;
          each = v.each;
          listed = λ e l g is_open. ground (arith, v.listed e l g is_open);
        })
        (λ l there.
          if_cases (IsDraining self_id max_players epochs) l.closed a _
            (λ shut. record {
              self = v.self;
              slots_kept = v.slots_kept;
              roster_kept = v.roster_kept;
              alone = v.alone;
              each = v.each;
              listed = λ e m g is_open. ground (arith, v.listed e m g is_open);
            })
            (λ is_open. record {
              self = v.self;
              slots_kept = v.slots_kept;
              roster_kept = v.roster_kept;
              alone = v.alone;
              each = λ e m g. elim (get-insert_inv a.links epoch e (closed_link l) m g) [
                | inl (here, changed) ↦
                    let old = v.each epoch l there in
                    rw (here, changed)
                      (record {
                        named = old.named;
                        numbered = old.numbered;
                        direction = old.direction;
                        buffers = old.buffers;
                      })
                | inr (elsewhere, g') ↦ v.each e m g'
              ];
              listed = λ e m g still. elim (get-insert_inv a.links epoch e (closed_link l) m g) [
                | inl (here, changed) ↦ absurd (ground arith)
                | inr (elsewhere, g') ↦ ground (arith, v.listed e m g' still)
              ];
            }))

  drain_all :
      (epochs : List ℕ) (a : Inner)
      → IsDraining self_id max_players epochs a
      → IsDraining self_id max_players [] (close_links epochs a)
  unfolding close_links
  drain_all [] a v = v
  drain_all (epoch ∷ epochs) a v =
      drain_all epochs (close_link a epoch) (drain_one a epoch epochs v)

  -- It does not matter whether the game is closed already.
  pub teardown-IsSound :
      (a : Inner)
      → a.self_id ≡ self_id
      → a.max_players ≡ max_players
      → IsRoster max_players a.roster
      → IsLinked self_id a.epoch_counter a.peers a.links
      → IsSound self_id max_players (teardown_peers a)
  unfolding teardown_peers Map.get contains
  teardown-IsSound a self slots_kept roster_kept linked =
      let drained : Inner = record a { peers = []; link_waiters = []; send_queues = [] } in
      let shut = drain_all (values a.peers) drained (record {
        self = self;
        slots_kept = slots_kept;
        roster_kept = roster_kept;
        alone = λ k. refl;
        each = linked.each;
        listed =
            λ e l g is_open. contains-values a.peers l.player_id e (linked.current e l g is_open);
      }) in
      record {
        self = shut.self;
        slots_kept = shut.slots_kept;
        roster_kept = shut.roster_kept;
        linked = record {
          each = shut.each;
          held = λ k e g. absurd (ground (arith, g, shut.alone k));
          current = λ e l g is_open. absurd (ground (arith, shut.listed e l g is_open));
        };
        shut = λ _. shut.alone;
      }

  pub teardown_peers-IsSound :
      (a : Inner) → IsSound self_id max_players a → IsSound self_id max_players (teardown_peers a)
  teardown_peers-IsSound a v = teardown-IsSound a v.self v.slots_kept v.roster_kept v.linked

  pub create_link-IsSound :
      (a : Inner) (web : Web) (k : ℕ) (initiator : Bool)
      → a.closed ≡ false
      → initiator ≡ ltb self_id k
      → IsSound self_id max_players a
      → IsSound self_id max_players (create_link a web k initiator).0
  unfolding create_link add_link
  create_link-IsSound a web k initiator live dir v =
      let shut = close_peer-IsSound a k v in
      let (gone, same) = close_peer_gone a k in
      if_both (λ (r : Inner × Option ℕ). IsSound self_id max_players r.0)
        (web.config_ok && web.connection_ok) _ _
        (record {
          self = shut.self;
          slots_kept = shut.slots_kept;
          roster_kept = shut.roster_kept;
          linked = add-IsLinked self_id (close_peer a k) k initiator gone dir shut.linked;
          shut = λ h. absurd (ground arith);
        })
        (record {
          self = shut.self;
          slots_kept = shut.slots_kept;
          roster_kept = shut.roster_kept;
          linked = skip-IsLinked self_id _ _ _ shut.linked;
          shut = shut.shut;
        })
