-- ===== src/Wasm/Runs.antt =====
-- The runs of the program of clients/rust/src/wasm that start with a game that is set up.
use lobbylink.Base.{
  ℕ, ◌≡◌, refl, true, List, [], ◌∷◌, ◌++◌, sym, ◌∙◌, arith, if_cases, if◌then◌else◌, inl, inr,
  Bool-cases,
}
use lobbylink.Base.Map
use lobbylink.Base.Outcome.{ok-injective}
use lobbylink.Protocol.{JoinedMsg}
use lobbylink.Roster.{PlayerInfo}
use lobbylink.Roster.Laws.{roster_from_snapshot-IsRoster}
use lobbylink.Wasm.{Output, Inner, Web}
use lobbylink.Wasm.Signals.{initiate_peer}
use lobbylink.Wasm.Game.{Game, ConnectOptions, is_target, offer_all, new_inner, set_up}
use lobbylink.Wasm.Game.Storage.{Stores}
use lobbylink.Wasm.Steps.{Step, arrives, resumes, Reachable, start, later}
use lobbylink.Wasm.Invariant.Signals.{initiate_peer-IsSound}
use lobbylink.Wasm.Directed.Offering.{initiate_peer-IsOrdered}
use lobbylink.Wasm.Closing.{IsShut, shown}
use lobbylink.Wasm.Closing.Steps.{step_shut}
use lobbylink.Wasm.Reachable.{IsFine, All-without, resume-IsFine, handle-IsFine}

new_inner-IsFine :
    (opts : ConnectOptions) (msg : JoinedMsg)
    → IsFine msg.self_id msg.max_players (new_inner opts msg)
unfolding new_inner Map.get
new_inner-IsFine opts msg = (
  record {
    self = refl;
    slots_kept = refl;
    roster_kept = roster_from_snapshot-IsRoster msg.max_players msg.players;
    linked = record {
      each = λ e l h. absurd (ground (arith, h));
      held = λ k e h. absurd (ground (arith, h));
      current = λ e l h o. absurd (ground (arith, h));
    };
    shut = λ h k. refl;
  },
  record { waiting = tt; outputs = tt; flushed = λ e l h n. absurd (ground (arith, h)) },
)

offer_one-IsFine :
    (self_id max_players : ℕ) (a : Inner) (web : Web) (p : PlayerInfo)
    → IsFine self_id max_players a
    → IsFine self_id max_players (if is_target self_id p then initiate_peer a web p.id else a)
offer_one-IsFine self_id max_players a web p v =
    if_cases (IsFine self_id max_players) (is_target self_id p) _ _
      (λ target. (
        initiate_peer-IsSound a web p.id (ground arith) v.0,
        initiate_peer-IsOrdered a web p.id v.0 v.1,
      ))
      (λ _. v)

offer_all-IsFine :
    (self_id max_players : ℕ) (web : ℕ → Web) (roster : List PlayerInfo) (a : Inner)
    → IsFine self_id max_players a
    → IsFine self_id max_players (offer_all a web self_id roster)
unfolding offer_all
offer_all-IsFine self_id max_players web [] a v = v
offer_all-IsFine self_id max_players web (p ∷ roster) a v =
    offer_all-IsFine self_id max_players web roster
      (if is_target self_id p then initiate_peer a (web p.id) p.id else a)
      (offer_one-IsFine self_id max_players a (web p.id) p v)

Step-IsFine :
    (self_id max_players : ℕ) (game : Game) (a b : Inner)
    → Step game a b
    → IsFine self_id max_players a
    → IsFine self_id max_players b
Step-IsFine self_id max_players game a b (arrives web arrival next h) v =
    let (next', h', v') = handle-IsFine self_id max_players game a web arrival v in
    rw (ok-injective next next' (sym h ∙ h')) v'
Step-IsFine self_id max_players game a b (resumes web t before after here ready) v =
    let (p, rest) = All-without _ before t after (rw (sym here) v.1.waiting) in
    resume-IsFine self_id max_players (record a { tasks = before ++ after }) web t p
      (v.0, record { waiting = rest; outputs = v.1.outputs; flushed = v.1.flushed })

-- In a closed game all links are closed.
closed-IsShut :
    (self_id max_players : ℕ) (a : Inner)
    → IsFine self_id max_players a
    → a.closed ≡ true
    → IsShut (shown a.log) a
closed-IsShut self_id max_players a v h = record {
  shut = h;
  links_shut = λ e l there. elim (Bool-cases l.closed) [
    | inl closed ↦ closed
    | inr is_open ↦
        absurd (ground (arith, v.0.shut h l.player_id, v.0.linked.current e l there is_open))
  ];
  same = refl;
}

later_shut :
    (game : Game) (a b : Inner) {effects : List Output}
    → Reachable game a b
    → IsShut effects a
    → IsShut effects b
later_shut game a b start v = v
later_shut game a b (later {a = c} run step) v =
    step_shut game c b _ step (later_shut game a c run v)

module _ (opts : ConnectOptions) (stores : Stores) (web : ℕ → Web) (msg : JoinedMsg) where
  -- The states that a game that was just joined can come to.
  abbrev pub IsRun : Inner → Type 0
  IsRun a = Reachable (set_up opts stores web msg).game (set_up opts stores web msg).inner a

  -- In every state that a joined game can come to, whatever the browser answers and in whatever order
  -- its handlers, the calls and the tasks run: the roster has a slot for each id in order; the open
  -- links are exactly those of the peers, one for each player, and there is none after close; we
  -- offer exactly to the players with higher ids; every reassembly buffer is well-formed; and what
  -- was done was in order: offers only went to higher ids and answers to lower ones, no candidate
  -- was added before the remote description was set, and every pause before a rebuild was one to
  -- three seconds long and for a player we offer to.
  pub reachable-IsFine : (a : Inner) → IsRun a → IsFine msg.self_id msg.max_players a
  unfolding set_up
  reachable-IsFine a start =
      offer_all-IsFine msg.self_id msg.max_players web _ (new_inner opts msg)
        (new_inner-IsFine opts msg)
  reachable-IsFine b (later {a = a} run step) =
      Step-IsFine msg.self_id msg.max_players _ a b step (reachable-IsFine a run)

  -- A closed game stays closed, and whatever arrives or goes on afterwards, nothing more is seen of
  -- it: no event, no message to the server, no connection, no frame and no pause is added; only the
  -- callers of the sends get their results, and closed connections their last calls.
  pub closed_for_good :
      (a b : Inner)
      → IsRun a
      → a.closed ≡ true
      → Reachable (set_up opts stores web msg).game a b
      → (b.closed ≡ true) × (shown b.log ≡ shown a.log)
  closed_for_good a b run h later_run =
      let v =
        later_shut _ a b later_run
          (closed-IsShut msg.self_id msg.max_players a (reachable-IsFine a run) h) in
      (v.shut, v.same)
