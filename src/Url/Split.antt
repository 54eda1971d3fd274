-- ===== src/Url/Split.antt =====
-- The text functions of url.rs: what they keep, what they cut, and where they change nothing.
use lobbylink.Base.{
  ℕ, ◌≡◌, ◌≢◌, refl, ◌⊎◌, inl, inr, true, false, [], ◌∷◌, ◌++◌, All, Text, codes, text_eq,
  text_eq→eq, text_eq_refl, arith, Bool-cases,
}
use lobbylink.Url.{before_byte, from_byte, trim_end_matches, ends_with}

abbrev pub Absent : ℕ → Text → Type 0
Absent c = All (λ d. d ≢ c)

abbrev pub StartsWith : ℕ → Text → Type 0
StartsWith c [] = ⊥
StartsWith c (d ∷ s) = d ≡ c

pub before_byte-Absent : (c : ℕ) (s : Text) → Absent c (before_byte c s)
unfolding before_byte
before_byte-Absent c [] = tt
before_byte-Absent c (d ∷ s) = ground (arith, before_byte-Absent c s)

pub before_byte-keeps : (c e : ℕ) (s : Text) → Absent e s → Absent e (before_byte c s)
unfolding before_byte
before_byte-keeps c e [] h = tt
before_byte-keeps c e (d ∷ s) h = ground (arith, before_byte-keeps c e s h.1)

pub from_byte-keeps : (c e : ℕ) (s : Text) → Absent e s → Absent e (from_byte c s)
unfolding from_byte
from_byte-keeps c e [] h = tt
from_byte-keeps c e (d ∷ s) h = ground (arith, from_byte-keeps c e s h.1)

pub from_byte-starts : (c : ℕ) (s : Text) → (from_byte c s ≡ []) ⊎ StartsWith c (from_byte c s)
unfolding from_byte
from_byte-starts c [] = inl refl
from_byte-starts c (d ∷ s) = ground (arith, from_byte-starts c s)

-- Nothing is cut where the byte does not occur.
pub before_byte_id : (c : ℕ) (s : Text) → Absent c s → before_byte c s ≡ s
unfolding before_byte
before_byte_id c [] h = refl
before_byte_id c (d ∷ s) h = ground (arith, before_byte_id c s h.1)

-- A text is cut at the first slash.
pub before_byte-append :
    (c : ℕ) (s t : Text) → Absent c s → StartsWith c t → before_byte c (s ++ t) ≡ s
unfolding before_byte
before_byte-append c [] [] h w = absurd w
before_byte-append c [] (d ∷ t) h w = ground arith
before_byte-append c (d ∷ s) t h w = ground (arith, before_byte-append c s t h.1 w)

pub from_byte-append : (c : ℕ) (s t : Text) → Absent c s → StartsWith c t → from_byte c (s ++ t) ≡ t
unfolding from_byte
from_byte-append c [] [] h w = absurd w
from_byte-append c [] (d ∷ t) h w = ground arith
from_byte-append c (d ∷ s) t h w = ground (arith, from_byte-append c s t h.1 w)

pub trim-keeps : (c e : ℕ) (s : Text) → Absent e s → Absent e (trim_end_matches c s)
unfolding trim_end_matches
trim-keeps c e [] h = tt
trim-keeps c e (d ∷ s) h = ground (arith, trim-keeps c e s h.1)

pub trim-starts :
    (c e : ℕ) (s : Text)
    → (s ≡ []) ⊎ StartsWith e s
    → (trim_end_matches c s ≡ []) ⊎ StartsWith e (trim_end_matches c s)
unfolding trim_end_matches
trim-starts c e [] h = inl refl
trim-starts c e (d ∷ s) h = ground arith

abbrev pub ws_path : Text
ws_path = codes "/ws"

-- A text that ends in "/ws" has no slash to trim.
pub trim_id : (s : Text) → ends_with ws_path s ≡ true → trim_end_matches b'/' s ≡ s
unfolding trim_end_matches ends_with text_eq
trim_id [] h = cc
trim_id (d ∷ s) h = elim (Bool-cases (ends_with ws_path s)) [
  | inl later ↦ ground (arith, trim_id s later, ends_nonempty s later)
  | inr here ↦ ground (arith, text_eq→eq (d ∷ s) ws_path)
]
  where
    ends_nonempty : (t : Text) → ends_with ws_path t ≡ true → text_eq t [] ≡ false
    ends_nonempty [] e = cc
    ends_nonempty (x ∷ t) e = refl

pub ends_with-append : (s : Text) → ends_with ws_path (s ++ ws_path) ≡ true
unfolding ends_with
ends_with-append [] = ground (arith, text_eq_refl ws_path)
ends_with-append (c ∷ s) = ground (arith, ends_with-append s)

pub ends_with-nonempty : (s : Text) → ends_with ws_path s ≡ true → s ≢ []
unfolding ends_with text_eq
ends_with-nonempty [] h = cc
ends_with-nonempty (c ∷ s) h = λ e. cc
