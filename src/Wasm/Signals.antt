-- ===== src/Wasm/Signals.antt =====
-- The WebRTC signaling of wasm/inner.rs: `offer_flow`, `handle_signal` and `answer_flow`, from one
-- `await` to the next.
use lobbylink.Base.{
  ℕ, Bool, true, false, List, [], ◌∷◌, ◌++◌, Option, none, some, ltb, ◌==◌, if◌then◌else◌, ◌||◌,
  not, Text,
}
use lobbylink.Base.Map
use lobbylink.Protocol.{SignalPayload, offer, answer, ice, unknown, signal}
use lobbylink.Protocol.Values.{Json}
use lobbylink.Wasm.{
  Link, After, done, create_answer, Inner, Web, SignalingState, offer_start, offer_set,
  offer_applied, answer_created, answer_set, answer_applied, flushing, ws_send, remote_set,
  add_candidate, put, spawn, set_link, is_closed,
}
use lobbylink.Wasm.Links.{create_link}

unfoldable pub send_signal : Inner → Web → ℕ → SignalPayload → Inner
send_signal a web to payload =
    if a.closed || not web.ws_open then a else put a (ws_send (signal to payload))

unfoldable pub initiate_peer : Inner → Web → ℕ → Inner
initiate_peer a web player_id =
    let (a', made) = create_link a web player_id true in
    if a.closed then a else (elim made [ none ↦ a' | some epoch ↦ spawn a' (offer_start epoch) ])

-- `create_offer` is answered.
unfoldable pub offer_made : Inner → Web → ℕ → Inner
offer_made a web epoch =
    if not web.fulfilled || is_closed a epoch then a else spawn a (offer_set epoch)

-- The end of an offer or an answer: the local description is set, and is sent.
unfoldable pub send_local : Inner → Web → ℕ → ℕ → (Text → SignalPayload) → Inner
send_local a web epoch to payload =
    if not web.fulfilled || is_closed a epoch
    then a
    else (elim web.local_description [ none ↦ a | some sdp ↦ send_signal a web to (payload sdp) ])

unfoldable pub send_offer : Inner → Web → ℕ → Inner
send_offer a web epoch = elim (Map.get a.links epoch) [
  | none ↦ a
  | some l ↦ send_local a web epoch l.player_id offer
]

unfoldable pub go_on : Inner → ℕ → After → Inner
go_on a epoch done = a
go_on a epoch (create_answer from) = spawn a (answer_created epoch from)

-- The loop of `flush_candidates`; a candidate that the browser cannot read is skipped at once.
unfoldable pub flush_list : Inner → Web → ℕ → List Json → After → Inner
flush_list a web epoch [] after = go_on a epoch after
flush_list a web epoch (c ∷ cs) after =
    let rest = flush_list a web epoch cs after in
    if web.candidate_ok c
    then spawn (put a (add_candidate epoch c)) (flushing epoch cs after)
    else rest

abbrev pub with_pending : Link → Option (List Json) → Link
with_pending l pending = record l { pending_candidates = pending }

unfoldable pub flush_link : Inner → Web → ℕ → Link → After → Inner
flush_link a web epoch l after = elim l.pending_candidates [
  | none ↦ go_on a epoch after
  | some pending ↦ flush_list (set_link a epoch (with_pending l none)) web epoch pending after
]

unfoldable pub flush_candidates : Inner → Web → ℕ → After → Inner
flush_candidates a web epoch after = elim (Map.get a.links epoch) [
  | none ↦ a
  | some l ↦ flush_link a web epoch l after
]

-- `set_remote_description` of `answer_flow` is answered; `remote_set` notes that it was fulfilled.
unfoldable pub offer_taken : Inner → Web → ℕ → ℕ → Inner
offer_taken a web epoch from =
    if not web.fulfilled
    then a
    else if is_closed a epoch
    then put a (remote_set epoch)
    else flush_candidates (put a (remote_set epoch)) web epoch (create_answer from)

unfoldable pub answer_made : Inner → Web → ℕ → ℕ → Inner
answer_made a web epoch from =
    if not web.fulfilled || is_closed a epoch then a else spawn a (answer_set epoch from)

-- `set_remote_description` of an answer is answered.
unfoldable pub answer_taken : Inner → Web → ℕ → Inner
answer_taken a web epoch =
    if not web.fulfilled then a else flush_candidates (put a (remote_set epoch)) web epoch done

unfoldable pub handle_offer : Inner → Web → ℕ → Text → Inner
handle_offer a web from sdp =
    let (a', made) = create_link a web from false in
    if ltb a.self_id from
    then a
    else (elim made [ none ↦ a' | some epoch ↦ spawn a' (offer_applied epoch from) ])

abbrev pub is_have_local_offer : SignalingState → Bool
is_have_local_offer SignalingState.have_local_offer = true
is_have_local_offer _ = false

unfoldable pub handle_answer : Inner → Web → ℕ → Text → Inner
handle_answer a web from sdp = elim (Map.get a.peers from) [
  | none ↦ a
  | some epoch ↦
      if is_closed a epoch || not (is_have_local_offer (web.signaling_state epoch))
      then a
      else spawn a (answer_applied epoch)
]

-- A candidate waits until the remote description is set.
unfoldable pub take_candidate : Inner → Web → ℕ → Link → Json → Inner
take_candidate a web epoch l candidate = elim l.pending_candidates [
  | none ↦ if web.candidate_ok candidate then put a (add_candidate epoch candidate) else a
  | some pending ↦ set_link a epoch (with_pending l (some (pending ++ (candidate ∷ []))))
]

unfoldable pub take_ice : Inner → Web → ℕ → Link → Option Json → Inner
take_ice a web epoch l candidate =
    if l.closed then a else (elim candidate [ none ↦ a | some c ↦ take_candidate a web epoch l c ])

unfoldable pub handle_ice : Inner → Web → ℕ → Option Json → Inner
handle_ice a web from candidate = elim (Map.get a.peers from) [
  | none ↦ a
  | some epoch ↦ elim (Map.get a.links epoch) [
    | none ↦ a
    | some l ↦ take_ice a web epoch l candidate
  ]
]

unfoldable pub handle_payload : Inner → Web → ℕ → SignalPayload → Inner
handle_payload a web from (offer sdp) = handle_offer a web from sdp
handle_payload a web from (answer sdp) = handle_answer a web from sdp
handle_payload a web from (ice candidate) = handle_ice a web from candidate
handle_payload a web from unknown = a

-- `handle_signal` up to its first `await`.
unfoldable pub handle_signal : Inner → Web → ℕ → SignalPayload → Inner
handle_signal a web from payload =
    if a.closed || from == a.self_id then a else handle_payload a web from payload
