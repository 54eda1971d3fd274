-- ===== src/Wasm/Directed/Links.antt =====
-- Links that are made and closed.
use lobbylink.Base.{
  ℕ, ◌+◌, ◌≤◌, ◌≡◌, Option-cases, refl, Bool, true, List, [], ◌∷◌, Option, some, ◌&&◌, arith,
  if_both, lookup_cases, inl, inr,
}
use lobbylink.Base.Map
use lobbylink.Base.Map.{get-insert, get-insert_inv}
use lobbylink.Wasm.{
  Link, SendJob, SendQueue, Inner, Web, close_connection, open_connection, reply, put,
}
use lobbylink.Wasm.Links.{
  closed_link, close_link, close_links, close_peer, values, drop_jobs, drop_queues, teardown_peers,
  new_link, add_link, create_link,
}
use lobbylink.Wasm.Invariant.{IsSound}
use lobbylink.Wasm.Invariant.Links.{close_peer-IsSound}
use lobbylink.Wasm.Directed.{
  initiates, IsOrdered, put-IsOrdered, relink-IsOrdered, set_link-IsOrdered,
}

close_link-IsOrdered : (a : Inner) (e : ℕ) → IsOrdered a → IsOrdered (close_link a e)
unfolding close_link
close_link-IsOrdered a e d =
    lookup_cases IsOrdered (Map.get a.links e) _ _ (λ _. d)
      (λ l there. if_both IsOrdered l.closed _ _ d (
        let done = put-IsOrdered a (close_connection e) tt d in
        set_link-IsOrdered (put a (close_connection e)) e l (closed_link l) there refl
          (λ n. done.flushed e l there n) done))

close_links-IsOrdered : (es : List ℕ) (a : Inner) → IsOrdered a → IsOrdered (close_links es a)
unfolding close_links
close_links-IsOrdered [] a d = d
close_links-IsOrdered (e ∷ es) a d =
    close_links-IsOrdered es (close_link a e) (close_link-IsOrdered a e d)

pub close_peer-IsOrdered : (a : Inner) (k : ℕ) → IsOrdered a → IsOrdered (close_peer a k)
unfolding close_peer
close_peer-IsOrdered a k d =
    lookup_cases IsOrdered (Map.get a.peers k) _ _ (λ _. d)
      (λ e _. close_link-IsOrdered (record a { peers = Map.remove a.peers k }) e d)

drop_jobs-IsOrdered :
    (jobs : List SendJob) (a : Inner)
    → IsOrdered a
    → IsOrdered (record a { log = drop_jobs jobs a.log })
unfolding drop_jobs
drop_jobs-IsOrdered [] a d = d
drop_jobs-IsOrdered (job ∷ jobs) a d =
    drop_jobs-IsOrdered jobs (put a (reply job.done _)) (put-IsOrdered a _ tt d)

drop_queues-IsOrdered :
    (queues : List SendQueue) (a : Inner)
    → IsOrdered a
    → IsOrdered (record a { log = drop_queues queues a.log })
unfolding drop_queues
drop_queues-IsOrdered [] a d = d
drop_queues-IsOrdered (q ∷ queues) a d =
    drop_queues-IsOrdered queues (record a { log = drop_jobs q.items a.log })
      (drop_jobs-IsOrdered q.items a d)

pub teardown_peers-IsOrdered : (a : Inner) → IsOrdered a → IsOrdered (teardown_peers a)
unfolding teardown_peers
teardown_peers-IsOrdered a d =
    let drained : Inner = record a { peers = []; link_waiters = []; send_queues = [] } in
    drop_queues-IsOrdered (values a.send_queues) (close_links (values a.peers) drained)
      (close_links-IsOrdered (values a.peers) drained d)

add_link-IsOrdered :
    (a : Inner) (k : ℕ) (initiator : Bool)
    → ((e : ℕ) (l : Link) → Map.get a.links e ≡ some l → e ≤ a.epoch_counter)
    → IsOrdered a
    → IsOrdered (add_link a k initiator)
unfolding add_link initiates
add_link-IsOrdered a k initiator used d =
    let opened : Inner =
      put a (open_connection (a.epoch_counter + 1) a.ice_servers a.force_relay) in
    let d' =
      put-IsOrdered a (open_connection (a.epoch_counter + 1) a.ice_servers a.force_relay) tt d in
    relink-IsOrdered opened (Map.insert a.links (a.epoch_counter + 1) (new_link a k initiator))
      (λ i h.
        let now = get-insert a.links (a.epoch_counter + 1) i (new_link a k initiator) in
        elim (Option-cases (Map.get a.links i)) [
          | inl out ↦ ground arith
          | inr (l, there) ↦ ground (arith, used i l there)
        ])
      (λ i m g n.
        elim (get-insert_inv a.links (a.epoch_counter + 1) i (new_link a k initiator) m g) [
          | inl (here, made) ↦ absurd (ground arith)
          | inr (elsewhere, g') ↦ d'.flushed i m g' n
        ])
      d'

-- The new link offers if it was made to.
abbrev pub Offers : Bool → Inner × Option ℕ → Type 0
Offers initiator r =
    IsOrdered r.0 × ((e : ℕ) → r.1 ≡ some e → initiator ≡ true → initiates r.0.links e ≡ true)

module _ {self_id max_players : ℕ} where
  pub create_link-IsOrdered :
      (a : Inner) (web : Web) (k : ℕ) (initiator : Bool)
      → IsSound self_id max_players a
      → IsOrdered a
      → Offers initiator (create_link a web k initiator)
  unfolding create_link add_link initiates
  create_link-IsOrdered a web k initiator v d =
      let shut = close_peer-IsSound a k v in
      let shut_d = close_peer-IsOrdered a k d in
      if_both (Offers initiator) (web.config_ok && web.connection_ok) _ _
        (
          add_link-IsOrdered (close_peer a k) k initiator
              (λ e l there. (shut.linked.each e l there).numbered) shut_d,
          λ e same up. ground (
            arith,
            get-insert (close_peer a k).links ((close_peer a k).epoch_counter + 1) e
                (new_link (close_peer a k) k initiator),
          ),
        )
        (shut_d, λ e same up. ground arith)
