-- ===== src/Base/Outcome.antt =====
-- What a call of fallible Rust code gives: a value, an error value, or a panic.
use Prim.Native.Nat.{ℕ}
use mathlib.Core.Path.{◌≡◌, refl}
use mathlib.Core.Logic.{◌≢◌}
use mathlib.Core.Bool.{Bool, true, false}
use mathlib.Core.List.{List}
use mathlib.Core.Option.{Option, none, some}
use lobbylink.Base.Lists.{get_elem?}

pub data Outcome {ℓ κ} (E : Type ℓ) (A : Type κ) : Type (ℓ ⊔ κ) where
  ok : A → Outcome E A
  err : E → Outcome E A
  panic : Outcome E A

module _ {ℓ} {E : Type ℓ} where
  infixl 5 ◌>>=◌ ◌>>◌
  abbrev pub ◌>>=◌ {κ μ} : {A : Type κ} {B : Type μ} → Outcome E A → (A → Outcome E B) → Outcome E B
  panic >>= next = panic
  err e >>= next = err e
  ok a >>= next = next a

  abbrev pub ◌>>◌ {κ} : {B : Type κ} → Outcome E (Unit {0}) → Outcome E B → Outcome E B
  first >> next = first >>= λ done. next

  -- `if b { return Err(e) }`
  abbrev pub reject_if : Bool → E → Outcome E (Unit {0})
  reject_if true e = err e
  reject_if false e = ok tt

  -- `xs[i]`
  abbrev pub index {κ} : {A : Type κ} → List A → ℕ → Outcome E A
  index xs i = elim (get_elem? xs i) [ none ↦ panic | some a ↦ ok a ]

  -- `o.expect(…)`
  abbrev pub expect {κ} : {A : Type κ} → Option A → Outcome E A
  expect none = panic
  expect (some a) = ok a

  pub index-eq-ok {κ} :
      {A : Type κ} (xs : List A) (i : ℕ) (a : A) → get_elem? xs i ≡ some a → index xs i ≡ ok a
  index-eq-ok xs i a h = rw (h, index)

  pub index-eq-panic {κ} :
      {A : Type κ} (xs : List A) (i : ℕ) → get_elem? xs i ≡ none → index xs i ≡ panic
  index-eq-panic xs i h = rw (h, index)

pub ok-injective {ℓ κ} :
    {E : Type ℓ} {A : Type κ} (a b : A) → ◌≡◌ {A = Outcome E A} (ok a) (ok b) → a ≡ b
ok-injective a b h = cc

-- A `do` block that ends well has a first step that does.
pub >>=-eq-ok {ℓ κ μ} :
    {E : Type ℓ} {A : Type κ} {B : Type μ} {done : B} (first : Outcome E A) (next : A → Outcome E B)
    → (first >>= next) ≡ ok done
    → (a : A) × (first ≡ ok a) × (next a ≡ ok done)
>>=-eq-ok panic next h = cc
>>=-eq-ok (err e) next h = cc
>>=-eq-ok (ok a) next h = (a, refl, h)

-- What holds of a call that goes on with another.
pub >>=_cases {ℓ κ μ ν} :
    {E : Type ℓ} {A : Type κ} {B : Type μ} (P : Outcome E B → Type ν) (o : Outcome E A)
    (next : A → Outcome E B)
    → ((a : A) → o ≡ ok a → P (next a))
    → ((e : E) → P (err e))
    → (o ≡ panic → P panic)
    → P (o >>= next)
>>=_cases P (ok a) next p q r = p a refl
>>=_cases P (err e) next p q r = q e
>>=_cases P panic next p q r = r refl

module _ {ℓ} {E : Type ℓ} where
  pub reject_if-ne-panic : (b : Bool) (e : E) → reject_if b e ≢ panic
  reject_if-ne-panic true e h = cc
  reject_if-ne-panic false e h = cc
