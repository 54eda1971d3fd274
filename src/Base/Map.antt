-- ===== src/Base/Map.antt =====
-- `std::collections::HashMap` with `u16`/`u32` keys, as an association list without duplicate keys.
-- The program depends on no iteration order.
use Prim.Native.Nat.{ℕ}
use mathlib.Core.Path.{◌≡◌, refl}
use mathlib.Core.Logic.{◌≢◌, ◌⊎◌, inl, inr}
use mathlib.Core.Bool.{Bool}
use mathlib.Core.List.{List, [], ◌∷◌}
use mathlib.Core.Option.{Option, none, some}
use native.Mathlib.Omega.{arith}
use lobbylink.Base.Tests.{Bool-cases, ◌==◌, if◌then◌else◌}

abbrev pub HashMap {ℓ} : Type ℓ → Type ℓ
HashMap V = List (ℕ × V)

module _ {ℓ} {V : Type ℓ} where
  unfoldable pub get : HashMap V → ℕ → Option V
  get [] k = none
  get ((j, v) ∷ m) k = if j == k then some v else get m k

  unfoldable pub remove : HashMap V → ℕ → HashMap V
  remove [] k = []
  remove ((j, v) ∷ m) k = let rest = remove m k in if j == k then rest else (j, v) ∷ rest

  unfoldable pub insert : HashMap V → ℕ → V → HashMap V
  insert m k v = (k, v) ∷ remove m k

  -- `HashMap::retain`.
  unfoldable pub retain : (V → Bool) → HashMap V → HashMap V
  retain p [] = []
  retain p ((j, v) ∷ m) = let rest = retain p m in if p v then (j, v) ∷ rest else rest

  unfoldable pub keys : HashMap V → List ℕ
  keys [] = []
  keys ((j, v) ∷ m) = j ∷ keys m

  -- No key occurs twice.
  abbrev pub Distinct : HashMap V → Type ℓ
  Distinct [] = Unit {ℓ}
  Distinct ((j, v) ∷ m) = (get m j ≡ none) × Distinct m

  pub get-remove :
      (m : HashMap V) (k j : ℕ) → get (remove m k) j ≡ (if k == j then none else get m j)
  unfolding get remove
  get-remove [] k j = ground arith
  get-remove ((i, v) ∷ m) k j = ground (arith, get-remove m k j)

  pub get-insert :
      (m : HashMap V) (k j : ℕ) (v : V)
      → get (insert m k v) j ≡ (if k == j then some v else get m j)
  unfolding get insert
  get-insert m k j v = ground (arith, get-remove m k j)

  pub remove-Distinct : (m : HashMap V) (k : ℕ) → Distinct m → Distinct (remove m k)
  unfolding remove
  remove-Distinct [] k d = tt
  remove-Distinct ((i, v) ∷ m) k d = ground (arith, get-remove m k i, remove-Distinct m k d.1)

  pub insert-Distinct : (m : HashMap V) (k : ℕ) (v : V) → Distinct m → Distinct (insert m k v)
  unfolding insert
  insert-Distinct m k v d = ground (arith, get-remove m k k, remove-Distinct m k d)

  -- What `retain p` leaves of one lookup.
  abbrev pub kept : (V → Bool) → Option V → Option V
  kept p none = none
  kept p (some v) = if p v then some v else none

  pub get-retain :
      (p : V → Bool) (m : HashMap V) (k : ℕ) → Distinct m → get (retain p m) k ≡ kept p (get m k)
  unfolding get retain
  get-retain p [] k d = refl
  get-retain p ((i, v) ∷ m) k d = ground (arith, get-retain p m k d.1)

  pub retain-Distinct : (p : V → Bool) (m : HashMap V) → Distinct m → Distinct (retain p m)
  unfolding retain
  retain-Distinct p [] d = tt
  retain-Distinct p ((i, v) ∷ m) d = ground (arith, get-retain p m i d.1, retain-Distinct p m d.1)

  -- A key that has a value after an insertion is the inserted one or had it before.
  pub get-insert_inv :
      (m : HashMap V) (k j : ℕ) (v w : V)
      → get (insert m k v) j ≡ some w
      → ((j ≡ k) × (w ≡ v)) ⊎ ((k ≢ j) × (get m j ≡ some w))
  get-insert_inv m k j v w h = elim (Bool-cases (k == j)) [
    | inl same ↦ inl (ground arith, cc (get-insert m k j v))
    | inr other ↦ inr (ground arith, cc (get-insert m k j v))
  ]
