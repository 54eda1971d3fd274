-- ===== src/Wasm/Invariant/Sends.antt =====
-- A send keeps the invariant.
use lobbylink.Base.{ℕ, ◌≡◌, refl, some, lookup_cases}
use lobbylink.Base.Map
use lobbylink.Wasm.{Link, Inner}
use lobbylink.Wasm.Sends.{next_id, await_drain, await_open, await_link}
use lobbylink.Wasm.Kept.{IsKept}
use lobbylink.Wasm.Invariant.{IsSound}
use lobbylink.Wasm.Invariant.Linked.{IsSame}
use lobbylink.Wasm.Invariant.Links.{set_link-IsSound}
use lobbylink.Wasm.Invariant.Callbacks.{with_waiters-IsSound}

module _ (self_id max_players : ℕ) where
  next_id-IsSame :
      (a : Inner) (e : ℕ) (l : Link)
      → Map.get a.links e ≡ some l
      → IsSound self_id max_players a
      → IsSame self_id a.epoch_counter e l (next_id l)
  next_id-IsSame a e l there v =
      let old = v.linked.each e l there in
      record {
        player = refl;
        still_open = refl;
        fine = record {
          named = old.named;
          numbered = old.numbered;
          direction = old.direction;
          buffers = old.buffers;
        };
      }

  pub IsSound-IsKept : IsKept (IsSound self_id max_players)
  unfolding await_drain await_open await_link
  IsSound-IsKept = record {
    sending = record {
      sent = λ a e frame v. v;
      numbered = λ a e l there v. set_link-IsSound a e l _ there (next_id-IsSame a e l there v) v;
      drains = λ a s left seq v.
          lookup_cases (IsSound self_id max_players) (Map.get a.links s.epoch) _ _ (λ _. v)
            (λ l there. with_waiters-IsSound a s.epoch l l.open_waiters _ there v);
      opens = λ a to job e l there v. with_waiters-IsSound a e l _ l.drain_waiters there v;
      links = λ a to job v. v;
    };
    thrown = λ a e bytes v. v;
    replied = λ a job r v. v;
    queued = λ a to queue v. v;
    started = λ a to v. v;
  }
