-- ===== src/Base/Utf8.antt =====
-- `String::from_utf8_lossy` on bytes: each byte in turn, with what the character it belongs to still
-- wants.
use lobbylink.Base.{
  ℕ, zero, suc, ◌≡◌, refl, ap, ◌∙◌, Bool, true, false, List, [], ◌∷◌, ◌++◌, leb, ltb, ◌==◌, ◌&&◌,
  if◌then◌else◌, if_cases, sym, arith,
}

-- Between two characters, or inside one: how many bytes are wanted after the next one, the bounds of
-- the next one, and the bytes so far.
pub data Place : Type 0 where
  between : Place
  inside : ℕ → ℕ → ℕ → List ℕ → Place

-- What follows a first byte; none of the lists is a byte that starts no character.
pub data Start : Type 0 where
  single bad : Start
  wants : ℕ → ℕ → ℕ → Start

unfoldable pub start_of : ℕ → Start
start_of b =
    if ltb b 0x80
    then single
    else if ltb b 0xc2
    then bad
    else if ltb b 0xe0
    then wants 0 0x80 0xbf
    else if b == 0xe0
    then wants 1 0xa0 0xbf
    else if b == 0xed
    then wants 1 0x80 0x9f
    else if ltb b 0xf0
    then wants 1 0x80 0xbf
    else if b == 0xf0
    then wants 2 0x90 0xbf
    else if ltb b 0xf4
    then wants 2 0x80 0xbf
    else if b == 0xf4
    then wants 2 0x80 0x8f
    else bad

-- U+FFFD
abbrev pub replacement : List ℕ
replacement = 0xef ∷ 0xbf ∷ 0xbd ∷ []

-- What a byte that starts a character writes, and where it leads.
unfoldable pub first_byte : Start → ℕ → List ℕ × Place
first_byte single b = (b ∷ [], between)
first_byte bad b = (replacement, between)
first_byte (wants more lo hi) b = ([], inside more lo hi (b ∷ []))

-- A byte that fits a character; a character that is complete is written.
unfoldable pub next_byte : ℕ → List ℕ → List ℕ × Place
next_byte zero chars = (chars, between)
next_byte (suc more) chars = ([], inside more 0x80 0xbf chars)

unfoldable pub take_byte : Place → ℕ → List ℕ × Place
take_byte between b = first_byte (start_of b) b
take_byte (inside more lo hi chars) b =
    if leb lo b && leb b hi
    then next_byte more (chars ++ (b ∷ []))
    else (let (out, place) = first_byte (start_of b) b in (replacement ++ out, place))

unfoldable pub lossy_from : Place → List ℕ → List ℕ
lossy_from between [] = []
lossy_from (inside more lo hi chars) [] = replacement
lossy_from place (b ∷ bytes) =
    let (out, place') = take_byte place b in out ++ lossy_from place' bytes

unfoldable pub from_utf8_lossy : List ℕ → List ℕ
from_utf8_lossy bytes = lossy_from between bytes

-- The bytes are whole characters, from a place on.
unfoldable pub is_utf8_from : Place → List ℕ → Bool
is_utf8_from between [] = true
is_utf8_from (inside more lo hi chars) [] = false
is_utf8_from between (b ∷ bytes) = elim (start_of b) [
  | single ↦ is_utf8_from between bytes
  | bad ↦ false
  | wants more lo hi ↦ is_utf8_from (inside more lo hi (b ∷ [])) bytes
]
is_utf8_from (inside more lo hi chars) (b ∷ bytes) =
    if leb lo b && leb b hi
    then is_utf8_from (next_byte more (chars ++ (b ∷ []))).1 bytes
    else false

pub IsUtf8 : List ℕ → Type 0
IsUtf8 bytes = is_utf8_from between bytes ≡ true

abbrev so_far : Place → List ℕ
so_far between = []
so_far (inside more lo hi chars) = chars

append_nil : (xs : List ℕ) → xs ++ [] ≡ xs
append_nil [] = refl
append_nil (x ∷ xs) = ap (λ r. x ∷ r) (append_nil xs)

append_assoc : (xs ys zs : List ℕ) → (xs ++ ys) ++ zs ≡ xs ++ (ys ++ zs)
append_assoc [] ys zs = refl
append_assoc (x ∷ xs) ys zs = ap (λ r. x ∷ r) (append_assoc xs ys zs)

-- A byte that fits adds to what is written or to what waits.
next_byte_kept :
    (more : ℕ) (chars : List ℕ)
    → (next_byte more chars).0 ++ so_far (next_byte more chars).1 ≡ chars
unfolding next_byte
next_byte_kept zero chars = append_nil chars
next_byte_kept (suc more) chars = refl

at_start :
    (s : Start) (b : ℕ) (bytes : List ℕ)
    → ((place : Place)
        → is_utf8_from place bytes ≡ true
        → lossy_from place bytes ≡ so_far place ++ bytes)
    → (elim s [
      | single ↦ is_utf8_from between bytes
      | bad ↦ false
      | wants more lo hi ↦ is_utf8_from (inside more lo hi (b ∷ [])) bytes
    ])
      ≡ true
    → (first_byte s b).0 ++ lossy_from (first_byte s b).1 bytes ≡ b ∷ bytes
unfolding first_byte
at_start single b bytes later good = ap (λ r. b ∷ r) (later between good)
at_start bad b bytes later good = cc
at_start (wants more lo hi) b bytes later good = later (inside more lo hi (b ∷ [])) good

lossy_kept :
    (place : Place) (bytes : List ℕ)
    → is_utf8_from place bytes ≡ true
    → lossy_from place bytes ≡ so_far place ++ bytes
unfolding is_utf8_from lossy_from take_byte first_byte
lossy_kept between [] h = refl
lossy_kept (inside more lo hi chars) [] h = cc
lossy_kept between (b ∷ bytes) h =
    at_start (start_of b) b bytes (λ place good. lossy_kept place bytes good) h
lossy_kept (inside more lo hi chars) (b ∷ bytes) h =
    if_cases (λ (r : List ℕ × Place). r.0 ++ lossy_from r.1 bytes ≡ chars ++ (b ∷ bytes))
      (leb lo b && leb b hi) _ _
      (λ fits.
        let good : is_utf8_from (next_byte more (chars ++ (b ∷ []))).1 bytes ≡ true =
          ground (arith, h, fits) in
        ap (λ r. (next_byte more (chars ++ (b ∷ []))).0 ++ r)
          (lossy_kept (next_byte more (chars ++ (b ∷ []))).1 bytes good)
        ∙ (sym (append_assoc _ _ bytes)
            ∙ (ap (λ r. r ++ bytes) (next_byte_kept more (chars ++ (b ∷ [])))
                ∙ append_assoc chars (b ∷ []) bytes)))
      (λ not_fits. absurd (ground (arith, h, not_fits)))

-- Whole characters are read as they are.
pub from_utf8_lossy-IsUtf8 : (bytes : List ℕ) → IsUtf8 bytes → from_utf8_lossy bytes ≡ bytes
unfolding from_utf8_lossy IsUtf8
from_utf8_lossy-IsUtf8 bytes h = lossy_kept between bytes h
