-- ===== src/Wasm/Invariant/Linked.antt =====
-- The links under the making, the change and the closing of one.
use lobbylink.Base.{ℕ, ◌+◌, ◌≡◌, refl, Bool, none, some, ltb, ◌==◌, arith, Bool-cases, inl, inr}
use lobbylink.Base.Map
use lobbylink.Base.Map.{HashMap, get-insert, get-insert_inv, get-remove}
use lobbylink.Reassembly.Counters.{new-IsValid}
use lobbylink.Wasm.{Link, Inner}
use lobbylink.Wasm.Links.{closed_link, new_link}
use lobbylink.Wasm.Invariant.{IsLink, IsLinked}

-- What of a link matters to the others.
pub record IsSame (self_id counter epoch : ℕ) (l l' : Link) : Type 0 where
  pub player : l'.player_id ≡ l.player_id
  pub still_open : l'.closed ≡ l.closed
  pub fine : IsLink self_id counter epoch l'

module _ (self_id counter : ℕ) (peers : HashMap ℕ) (links : HashMap Link) where
  -- A link is changed, but for its player and its closed flag.
  pub update-IsLinked :
      (epoch : ℕ) (l l' : Link)
      → Map.get links epoch ≡ some l
      → IsSame self_id counter epoch l l'
      → IsLinked self_id counter peers links
      → IsLinked self_id counter peers (Map.insert links epoch l')
  update-IsLinked epoch l l' there same v = record {
    each = λ e m g. elim (get-insert_inv links epoch e l' m g) [
      | inl (here, changed) ↦ rw (here, changed) same.fine
      | inr (elsewhere, g') ↦ v.each e m g'
    ];
    held = λ k e g.
        let (m, h, p, c) = v.held k e g in
        let now = get-insert links epoch e l' in
        elim (Bool-cases (epoch == e)) [
          | inl here ↦ (
            l',
            ground (arith, now),
            ground (arith, same.player),
            ground (arith, same.still_open),
          )
          | inr elsewhere ↦ (m, ground (arith, now), p, c)
        ];
    current = λ e m g open_link. elim (get-insert_inv links epoch e l' m g) [
      | inl (here, changed) ↦ ground (arith, same.player, same.still_open, v.current epoch l there)
      | inr (elsewhere, g') ↦ v.current e m g' open_link
    ];
  }

  -- A peer is taken out and its link is closed.
  pub close-IsLinked :
      (k epoch : ℕ) (l : Link)
      → Map.get peers k ≡ some epoch
      → Map.get links epoch ≡ some l
      → IsLinked self_id counter peers links
      → IsLinked self_id counter (Map.remove peers k) (Map.insert links epoch (closed_link l))
  close-IsLinked k epoch l held there v = record {
    each = λ e m g. elim (get-insert_inv links epoch e (closed_link l) m g) [
      | inl (here, changed) ↦
          let old = v.each epoch l there in
          rw (here, changed)
            (record {
              named = old.named;
              numbered = old.numbered;
              direction = old.direction;
              buffers = old.buffers;
            })
      | inr (elsewhere, g') ↦ v.each e m g'
    ];
    held = λ j e g.
        let left = get-remove peers k j in
        let (m, h, p, c) = v.held j e (ground arith) in
        let now = get-insert links epoch e (closed_link l) in
        (m, ground (arith, v.held k epoch held), p, c);
    current = λ e m g open_link.
        let left = get-remove peers k m.player_id in
        elim (get-insert_inv links epoch e (closed_link l) m g) [
          | inl (here, changed) ↦ absurd (ground arith)
          | inr (elsewhere, g') ↦ ground (arith, v.current e m g' open_link)
        ];
  }

  -- An epoch that is not used.
  pub skip-IsLinked :
      IsLinked self_id counter peers links → IsLinked self_id (counter + 1) peers links
  skip-IsLinked v = record {
    each = λ e m g.
        let old = v.each e m g in
        record {
          named = old.named;
          numbered = omega (arith, old.numbered);
          direction = old.direction;
          buffers = old.buffers;
        };
    held = v.held;
    current = v.current;
  }

-- A new link for a player without one.
pub add-IsLinked :
    (self_id : ℕ) (a : Inner) (k : ℕ) (initiator : Bool)
    → Map.get a.peers k ≡ none
    → initiator ≡ ltb self_id k
    → IsLinked self_id a.epoch_counter a.peers a.links
    → IsLinked self_id
        (a.epoch_counter + 1)
        (Map.insert a.peers k (a.epoch_counter + 1))
        (Map.insert a.links (a.epoch_counter + 1) (new_link a k initiator))
add-IsLinked self_id a k initiator free dir v = record {
  each = λ e m g.
      elim (get-insert_inv a.links (a.epoch_counter + 1) e (new_link a k initiator) m g) [
        | inl (here, made) ↦
            rw (here, made)
              (record {
                named = refl;
                numbered = omega arith;
                direction = dir;
                buffers = new-IsValid;
              })
        | inr (elsewhere, g') ↦
            let old = v.each e m g' in
            record {
              named = old.named;
              numbered = omega (arith, old.numbered);
              direction = old.direction;
              buffers = old.buffers;
            }
      ];
  held = λ j e g.
      let now = get-insert a.links (a.epoch_counter + 1) e (new_link a k initiator) in
      elim (get-insert_inv a.peers k j (a.epoch_counter + 1) e g) [
        | inl (here, made) ↦ (new_link a k initiator, ground (arith, now), ground arith, refl)
        | inr (elsewhere, g') ↦
            let (m, h, p, c) = v.held j e g' in
            (m, ground (arith, now, (v.each e m h).numbered), p, c)
      ];
  current = λ e m g open_link.
      let there = get-insert a.peers k m.player_id (a.epoch_counter + 1) in
      elim (get-insert_inv a.links (a.epoch_counter + 1) e (new_link a k initiator) m g) [
        | inl (here, made) ↦ ground (arith, there)
        | inr (elsewhere, g') ↦ ground (arith, there, v.current e m g' open_link)
      ];
}
