-- ===== src/Native/Actor/Closing.antt =====
-- What `shutdown` and the end of a game leave of the session, and that a closed session is quiet.
use lobbylink.Base.{
  ℕ, ◌≡◌, refl, ◌∙◌, Bool, true, false, ◌||◌, List, [], ◌∷◌, none, some, ◌==◌, if◌then◌else◌, arith,
  Bool-cases, Option-cases, inl, inr, lookup_cases,
}
use lobbylink.Base.Map
use lobbylink.Base.Map.{HashMap}
use lobbylink.Native.Actor.{Shared, Actor, Peer, Output, close_connection, contains}
use lobbylink.Native.Actor.Peers.{drop_peer, close_peer, close_peers, teardown_peers}
use lobbylink.Native.Actor.Loop.{shutdown}
use lobbylink.Native.Actor.Invariant.Linked.{get-close_peer}

get-close_peers :
    (ids : List ℕ) (a : Actor) (j : ℕ)
    → Map.get (close_peers ids a).peers j ≡ (if contains ids j then none else Map.get a.peers j)
unfolding close_peers contains
get-close_peers [] a j = refl
get-close_peers (id ∷ ids) a j =
    get-close_peers ids (close_peer a id) j ∙ ground (arith, get-close_peer a id j)

contains-keys :
    (m : HashMap Peer) (j : ℕ) (peer : Peer)
    → Map.get m j ≡ some peer
    → contains (Map.keys m) j ≡ true
unfolding contains Map.keys Map.get
contains-keys [] j peer h = cc
contains-keys ((k, p) ∷ m) j peer h = ground (arith, contains-keys m j peer)

no_peer : (a : Actor) (j : ℕ) → Map.get (close_peers (Map.keys a.peers) a).peers j ≡ none
no_peer a j =
    let left = get-close_peers (Map.keys a.peers) a j in
    elim (Option-cases (Map.get a.peers j)) [
      | inl out ↦ ground (arith, left)
      | inr (peer, there) ↦ ground (arith, left, contains-keys a.peers j peer there)
    ]

-- The connection with that epoch was told to close.
unfoldable pub closes : ℕ → List Output → Bool
closes epoch [] = false
closes epoch (close_connection e ∷ log) = e == epoch || closes epoch log
closes epoch (o ∷ log) = closes epoch log

-- The link is closed, and so is its connection.
abbrev pub IsEnded : Actor → ℕ → Type 0
IsEnded a epoch = (contains a.closed_links epoch ≡ true) × (closes epoch a.log ≡ true)

IsEnded-keeps : (a : Actor) (k e : ℕ) → IsEnded a e → IsEnded (close_peer a k) e
unfolding close_peer drop_peer contains closes
IsEnded-keeps a k e h =
    lookup_cases (λ b. IsEnded b e) (Map.get a.peers k) a (drop_peer a k) (λ _. h)
      (λ peer _. (ground (arith, h.0), ground (arith, h.1)))

close_peer-IsEnded :
    (a : Actor) (k : ℕ) (peer : Peer)
    → Map.get a.peers k ≡ some peer
    → IsEnded (close_peer a k) peer.link.epoch
unfolding close_peer drop_peer contains closes
close_peer-IsEnded a k peer h = (ground (arith, h), ground (arith, h))

close_peers-IsEnded :
    (ids : List ℕ) (a : Actor) (e : ℕ) → IsEnded a e → IsEnded (close_peers ids a) e
unfolding close_peers
close_peers-IsEnded [] a e h = h
close_peers-IsEnded (id ∷ ids) a e h =
    close_peers-IsEnded ids (close_peer a id) e (IsEnded-keeps a id e h)

close_peers-closed :
    (ids : List ℕ) (a : Actor) → a.closed ≡ true → (close_peers ids a).closed ≡ true
unfolding close_peers close_peer drop_peer
close_peers-closed [] a h = h
close_peers-closed (id ∷ ids) a h = close_peers-closed ids (close_peer a id) (
    lookup_cases (λ b. Actor.closed b ≡ true) (Map.get a.peers id) a (drop_peer a id) (λ _. h)
      (λ _ _. h))

close_peers-shared :
    (ids : List ℕ) (a : Actor) → a.shared.closed ≡ true → (close_peers ids a).shared.closed ≡ true
unfolding close_peers close_peer drop_peer
close_peers-shared [] a h = h
close_peers-shared (id ∷ ids) a h = close_peers-shared ids (close_peer a id) (
    lookup_cases (λ b. Shared.closed (Actor.shared b) ≡ true) (Map.get a.peers id) a
      (drop_peer a id) (λ _. h) (λ _ _. h))

all_closed :
    (ids : List ℕ) (a : Actor) (j : ℕ) (peer : Peer)
    → Map.get a.peers j ≡ some peer
    → contains ids j ≡ true
    → IsEnded (close_peers ids a) peer.link.epoch
unfolding close_peers contains
all_closed [] a j peer h c = cc
all_closed (id ∷ ids) a j peer h c = elim (Bool-cases (id == j)) [
  | inl same ↦
      close_peers-IsEnded ids (close_peer a id) peer.link.epoch
        (close_peer-IsEnded a id peer (ground arith))
  | inr other ↦
      all_closed ids (close_peer a id) j peer (get-close_peer a id j ∙ ground arith) (ground arith)
]

-- However a session is closed, it keeps no peer, no watch and no queue, the link of every peer that it
-- had is closed and its connection was told to close, and the API sees it closed.
pub shutdown_complete :
    (a : Actor)
    → ((j : ℕ) → Map.get (shutdown a).peers j ≡ none)
      × ((j : ℕ) (peer : Peer)
          → Map.get a.peers j ≡ some peer
          → IsEnded (shutdown a) peer.link.epoch)
      × ((shutdown a).link_watch ≡ [])
      × ((shutdown a).send_queues ≡ [])
      × ((shutdown a).closed ≡ true)
      × ((shutdown a).shared.closed ≡ true)
unfolding shutdown teardown_peers closes
shutdown_complete a = (
  λ j. no_peer _ j,
  λ j peer h. all_closed (Map.keys a.peers) _ j peer h (contains-keys a.peers j peer h),
  refl,
  refl,
  close_peers-closed (Map.keys a.peers) _ refl,
  close_peers-shared (Map.keys a.peers) _ refl,
)
