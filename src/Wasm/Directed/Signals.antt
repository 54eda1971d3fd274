-- ===== src/Wasm/Directed/Signals.antt =====
-- Offers, answers and candidates.
use lobbylink.Base.{
  ℕ, ◌≡◌, refl, Bool, true, List, [], ◌∷◌, ◌++◌, Option, none, some, ltb, ◌||◌, not, arith, if_both,
  lookup_cases, Text,
}
use lobbylink.Base.Map
use lobbylink.Protocol.{SignalPayload, signal}
use lobbylink.Protocol.Values.{Json}
use lobbylink.Native.Actor.Invariant.{IsDirected}
use lobbylink.Wasm.{
  After, done, create_answer, Inner, Web, offer_set, answer_created, answer_set, answer_applied,
  flushing, ws_send, remote_set, add_candidate, put, set_link, is_closed,
}
use lobbylink.Wasm.Links.{close_link, close_peer, add_link, create_link}
use lobbylink.Wasm.Signals.{
  send_signal, offer_made, send_local, go_on, flush_list, with_pending, flush_link,
  flush_candidates, offer_taken, answer_made, answer_taken, is_have_local_offer, handle_answer,
  take_candidate, take_ice, handle_ice,
}
use lobbylink.Wasm.Directed.{
  initiates, described, IsTask, IsOrdered, put-IsOrdered, spawn-IsOrdered, set_link-IsOrdered,
}

pub create_link_self :
    (a : Inner) (web : Web) (k : ℕ) (initiator : Bool)
    → (create_link a web k initiator).0.self_id ≡ a.self_id
unfolding create_link close_peer close_link add_link
create_link_self a web k initiator = ground arith

pub send_signal-IsOrdered :
    (a : Inner) (web : Web) (to : ℕ) (payload : SignalPayload)
    → IsDirected a.self_id to payload
    → IsOrdered a
    → IsOrdered (send_signal a web to payload)
unfolding send_signal
send_signal-IsOrdered a web to payload p d =
    if_both IsOrdered (a.closed || not web.ws_open) _ _ d
      (put-IsOrdered a (ws_send (signal to payload)) p d)

pub offer_made-IsOrdered :
    (a : Inner) (web : Web) (e : ℕ)
    → initiates a.links e ≡ true
    → IsOrdered a
    → IsOrdered (offer_made a web e)
unfolding offer_made
offer_made-IsOrdered a web e p d =
    if_both IsOrdered (not web.fulfilled || is_closed a e) _ _ d
      (spawn-IsOrdered a (offer_set e) p d)

pub send_local-IsOrdered :
    (a : Inner) (web : Web) (e to : ℕ) (payload : Text → SignalPayload)
    → ((sdp : Text) → IsDirected a.self_id to (payload sdp))
    → IsOrdered a
    → IsOrdered (send_local a web e to payload)
unfolding send_local
send_local-IsOrdered a web e to payload p d =
    if_both IsOrdered (not web.fulfilled || is_closed a e) _ _ d (
      lookup_cases IsOrdered web.local_description _ _ (λ _. d)
        (λ sdp _. send_signal-IsOrdered a web to (payload sdp) (p sdp) d))

abbrev IsAfter : ℕ → After → Type 0
IsAfter self_id done = Unit
IsAfter self_id (create_answer from) = ltb from self_id ≡ true

go_on-IsOrdered :
    (a : Inner) (e : ℕ) (after : After)
    → IsAfter a.self_id after
    → IsOrdered a
    → IsOrdered (go_on a e after)
unfolding go_on
go_on-IsOrdered a e done p d = d
go_on-IsOrdered a e (create_answer from) p d = spawn-IsOrdered a (answer_created e from) p d

flushing-IsTask :
    (a : Inner) (e : ℕ) (cs : List Json) (after : After)
    → described e a.log ≡ true
    → IsAfter a.self_id after
    → IsTask a.self_id a.links a.log (flushing e cs after)
flushing-IsTask a e cs done p q = p
flushing-IsTask a e cs (create_answer from) p q = (p, q)

flush_list-IsOrdered :
    (a : Inner) (web : Web) (e : ℕ) (cs : List Json) (after : After)
    → described e a.log ≡ true
    → IsAfter a.self_id after
    → IsOrdered a
    → IsOrdered (flush_list a web e cs after)
unfolding flush_list described
flush_list-IsOrdered a web e [] after p q d = go_on-IsOrdered a e after q d
flush_list-IsOrdered a web e (c ∷ cs) after p q d =
    let added : Inner = put a (add_candidate e c) in
    if_both IsOrdered (web.candidate_ok c) _ _
      (spawn-IsOrdered added (flushing e cs after) (flushing-IsTask added e cs after p q)
        (put-IsOrdered a (add_candidate e c) p d))
      (flush_list-IsOrdered a web e cs after p q d)

pub flushing-IsOrdered :
    (a : Inner) (web : Web) (e : ℕ) (cs : List Json) (after : After)
    → IsTask a.self_id a.links a.log (flushing e cs after)
    → IsOrdered a
    → IsOrdered (flush_list a web e cs after)
flushing-IsOrdered a web e cs done p d = flush_list-IsOrdered a web e cs done p tt d
flushing-IsOrdered a web e cs (create_answer from) p d =
    flush_list-IsOrdered a web e cs (create_answer from) p.0 p.1 d

flush_candidates-IsOrdered :
    (a : Inner) (web : Web) (e : ℕ) (after : After)
    → described e a.log ≡ true
    → IsAfter a.self_id after
    → IsOrdered a
    → IsOrdered (flush_candidates a web e after)
unfolding flush_candidates flush_link
flush_candidates-IsOrdered a web e after p q d =
    lookup_cases IsOrdered (Map.get a.links e) _ _ (λ _. d)
      (λ l there.
        lookup_cases IsOrdered l.pending_candidates _ _ (λ _. go_on-IsOrdered a e after q d)
          (λ pending _.
            flush_list-IsOrdered (set_link a e (with_pending l none)) web e pending after p q
              (set_link-IsOrdered a e l (with_pending l none) there refl (λ _. p) d)))

now_described : (a : Inner) (e : ℕ) → described e (put a (remote_set e)).log ≡ true
unfolding described
now_described a e = ground arith

pub offer_taken-IsOrdered :
    (a : Inner) (web : Web) (e from : ℕ)
    → ltb from a.self_id ≡ true
    → IsOrdered a
    → IsOrdered (offer_taken a web e from)
unfolding offer_taken
offer_taken-IsOrdered a web e from p d =
    let d' = put-IsOrdered a (remote_set e) tt d in
    if_both IsOrdered (not web.fulfilled) _ _ d (
      if_both IsOrdered (is_closed a e) _ _ d' (
        flush_candidates-IsOrdered (put a (remote_set e)) web e (create_answer from)
          (now_described a e) p d'))

pub answer_made-IsOrdered :
    (a : Inner) (web : Web) (e from : ℕ)
    → ltb from a.self_id ≡ true
    → IsOrdered a
    → IsOrdered (answer_made a web e from)
unfolding answer_made
answer_made-IsOrdered a web e from p d =
    if_both IsOrdered (not web.fulfilled || is_closed a e) _ _ d
      (spawn-IsOrdered a (answer_set e from) p d)

pub answer_taken-IsOrdered :
    (a : Inner) (web : Web) (e : ℕ) → IsOrdered a → IsOrdered (answer_taken a web e)
unfolding answer_taken
answer_taken-IsOrdered a web e d = if_both IsOrdered (not web.fulfilled) _ _ d (
    flush_candidates-IsOrdered (put a (remote_set e)) web e done (now_described a e) tt
      (put-IsOrdered a (remote_set e) tt d))

pub handle_answer-IsOrdered :
    (a : Inner) (web : Web) (from : ℕ) (sdp : Text)
    → IsOrdered a
    → IsOrdered (handle_answer a web from sdp)
unfolding handle_answer
handle_answer-IsOrdered a web from sdp d =
    lookup_cases IsOrdered (Map.get a.peers from) _ _ (λ _. d)
      (λ e _.
        if_both IsOrdered (is_closed a e || not (is_have_local_offer (web.signaling_state e))) _ _ d
          (spawn-IsOrdered a (answer_applied e) tt d))

pub handle_ice-IsOrdered :
    (a : Inner) (web : Web) (from : ℕ) (c : Option Json)
    → IsOrdered a
    → IsOrdered (handle_ice a web from c)
unfolding handle_ice take_ice take_candidate
handle_ice-IsOrdered a web from c d =
    lookup_cases IsOrdered (Map.get a.peers from) _ _ (λ _. d)
      (λ e _.
        lookup_cases IsOrdered (Map.get a.links e) _ _ (λ _. d)
          (λ l there. if_both IsOrdered l.closed _ _ d (
            lookup_cases IsOrdered c _ _ (λ _. d)
              (λ c' _.
                lookup_cases IsOrdered l.pending_candidates _ _
                  (λ flushed.
                    if_both IsOrdered (web.candidate_ok c') _ _
                      (put-IsOrdered a (add_candidate e c') (d.flushed e l there flushed) d) d)
                  (λ pending _.
                    set_link-IsOrdered a e l (with_pending l (some (pending ++ c' ∷ []))) there refl
                      (λ n. absurd (ground arith)) d)))))
