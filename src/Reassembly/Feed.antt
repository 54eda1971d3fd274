-- ===== src/Reassembly/Feed.antt =====
-- Runs of pushes: the frames of one message in any order, with repeats, among frames of others.
use mathlib.Core.Path.{ap₂}
use lobbylink.Base.{
  sym, ◌++◌, All, ==_iff, ◌≢◌, Bool-cases, inl, inr, false, ℕ, ◌≤◌, ◌≡◌, refl, ◌∙◌, List, [], ◌∷◌,
  Option, none, some, ◌==◌, if◌then◌else◌, length, replicate, arith,
}
use lobbylink.Base.Map
use lobbylink.Base.Map.{get-remove, HashMap, get-retain, kept}
use lobbylink.Base.Outcome.{ok}
use lobbylink.Framing.{max_reliable_message, Frame}
use lobbylink.Reassembly.{new, push, feed, tagged, Reassembler}
use lobbylink.Reassembly.Counters.{new-IsValid, IsValid}
use lobbylink.Reassembly.Slots.{Agrees-replicate, concat, pending, set_once, is_complete}
use lobbylink.Reassembly.Watching.{
  Message, IsArrival, expected, of_id, Watches, step_own, step_other,
}

abbrev prepend : Option (List ℕ) → List (List ℕ) → List (List ℕ)
prepend none messages = messages
prepend (some message) messages = message ∷ messages

expected_own :
    (m : Message) (os : List (Option (List ℕ))) (f : Frame) (now : ℕ) (rest : List (Frame × ℕ))
    → f.msg_id ≡ m.id
    → let os' = set_once os f.seq f.payload in
      expected m os ((f, now) ∷ rest)
      ≡ prepend (if is_complete m.chunks os' then some (concat m.chunks) else none) (
          expected m
            (if is_complete m.chunks os' then replicate (length m.chunks) none else os')
            rest)
unfolding expected
expected_own m os f now rest h =
    rw ((==_iff f.msg_id m.id).1 h)
      (elim (Bool-cases (is_complete m.chunks (set_once os f.seq f.payload))) [
        | inl done ↦ rw done
        | inr more ↦ rw more
      ])

expected_other :
    (m : Message) (os : List (Option (List ℕ))) (f : Frame) (now : ℕ) (rest : List (Frame × ℕ))
    → (f.msg_id == m.id) ≡ false
    → expected m os ((f, now) ∷ rest) ≡ expected m os rest
unfolding expected
expected_other m os f now rest h = rw h

of_id-tagged_own :
    (k j : ℕ) (out : Option (List ℕ)) (outs : List (ℕ × List ℕ))
    → j ≡ k
    → of_id k (tagged j out ++ outs) ≡ prepend out (of_id k outs)
unfolding of_id
of_id-tagged_own k j none outs h = refl
of_id-tagged_own k j (some message) outs h = ground arith

of_id-tagged_other :
    (k j : ℕ) (out : Option (List ℕ)) (outs : List (ℕ × List ℕ))
    → j ≢ k
    → of_id k (tagged j out ++ outs) ≡ of_id k outs
unfolding of_id
of_id-tagged_other k j none outs h = refl
of_id-tagged_other k j (some message) outs h = ground arith

feed_step :
    (r r' r'' : Reassembler) (f : Frame) (now : ℕ) (rest : List (Frame × ℕ)) (out : Option (List ℕ))
    (outs : List (ℕ × List ℕ))
    → push r f now ≡ ok (r', out)
    → feed r' rest ≡ ok (r'', outs)
    → feed r ((f, now) ∷ rest) ≡ ok (r'', tagged f.msg_id out ++ outs)
unfolding feed
feed_step r r' r'' f now rest out outs p q = rw p (rw q)

-- The run from any state of the watched message.
feed_watched :
    (m : Message) (r : Reassembler) (os : List (Option (List ℕ))) (arrivals : List (Frame × ℕ))
    → length (concat m.chunks) ≤ max_reliable_message
    → Watches m os r
    → All (IsArrival m) arrivals
    → (r' : Reassembler) × (outs : List (ℕ × List ℕ)) × (feed r arrivals ≡ ok (r', outs))
      × (of_id m.id outs ≡ expected m os arrivals)
      × IsValid r'
feed_watched m r os [] fits w a =
    (r, [], unfold feed in refl, unfold of_id expected in refl, w.valid)
feed_watched m r os ((f, now) ∷ rest) fits w a = elim (Bool-cases (f.msg_id == m.id)) [
  | inl own ↦
      let e = (==_iff f.msg_id m.id).0 own in
      let (r', out, ran, result, w') = step_own m r f now os fits w a.0 e in
      let (r'', outs, more, spec, valid) = feed_watched m r' _ rest fits w' a.1 in
      (
        r'',
        tagged f.msg_id out ++ outs,
        feed_step r r' r'' f now rest out outs ran more,
        of_id-tagged_own m.id f.msg_id out outs e
            ∙ ap₂ prepend result spec
            ∙ sym (expected_own m os f now rest e),
        valid,
      )
  | inr other ↦
      let ne : f.msg_id ≢ m.id = λ e. cc (other, (==_iff f.msg_id m.id).1 e) in
      let (r', out, ran, w') = step_other m r f now os w a.0 ne in
      let (r'', outs, more, spec, valid) = feed_watched m r' os rest fits w' a.1 in
      (
        r'',
        tagged f.msg_id out ++ outs,
        feed_step r r' r'' f now rest out outs ran more,
        of_id-tagged_other m.id f.msg_id out outs ne
            ∙ spec
            ∙ sym (expected_other m os f now rest other),
        valid,
      )
]

-- Whatever acceptable frames come within 30 seconds, in any order, with repeats and among frames
-- of other messages, a message of at most 16 MiB comes out exactly when the frame that fills its
-- last empty slot comes, and it comes out whole; no push panics.
pub feed-expected :
    (m : Message) (arrivals : List (Frame × ℕ))
    → length (concat m.chunks) ≤ max_reliable_message
    → All (IsArrival m) arrivals
    → (r' : Reassembler) × (outs : List (ℕ × List ℕ)) × (feed new arrivals ≡ ok (r', outs))
      × (of_id m.id outs ≡ expected m (replicate (length m.chunks) none) arrivals)
      × IsValid r'
feed-expected m arrivals fits a =
    feed_watched m new (replicate (length m.chunks) none) arrivals fits
      (record {
        valid = new-IsValid;
        slots = unfold pending Map.get in refl;
        agrees = Agrees-replicate m.chunks;
        started = λ e h. unfold Map.get in cc;
      })
      a
