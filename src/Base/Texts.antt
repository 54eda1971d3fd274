-- ===== src/Base/Texts.antt =====
-- Texts as their bytes (every literal of the program is ASCII).
use Prim.Native.Nat.{ℕ, zero, suc, ◌+◌, ◌/◌, ◌%◌}
use Prim.Native.Char.{code}
use Prim.Native.String.{String}
use mathlib.Core.Path.{◌≡◌, refl}
use mathlib.Core.Bool.{Bool, true, false, ◌&&◌}
use mathlib.Core.List.{List, [], ◌∷◌, ◌++◌}
use native.Mathlib.Omega.{arith}
use lobbylink.Base.Tests.{ltb, ◌==◌, if◌then◌else◌}

abbrev pub Text : Type 0
Text = List ℕ

-- The bytes of a literal.
abbrev pub codes : String → Text
codes String.[] = []
codes (String.◌∷◌ c s) = code c ∷ codes s

unfoldable pub text_eq : Text → Text → Bool
text_eq [] [] = true
text_eq [] (d ∷ t) = false
text_eq (c ∷ s) [] = false
text_eq (c ∷ s) (d ∷ t) = (c == d) && text_eq s t

pub text_eq→eq : (s t : Text) → text_eq s t ≡ true → s ≡ t
unfolding text_eq
text_eq→eq [] [] h = refl
text_eq→eq [] (d ∷ t) h = cc
text_eq→eq (c ∷ s) [] h = cc
text_eq→eq (c ∷ s) (d ∷ t) h = ground (arith, text_eq→eq s t)

pub text_eq_refl : (s : Text) → text_eq s s ≡ true
unfolding text_eq
text_eq_refl [] = refl
text_eq_refl (c ∷ s) = ground (arith, text_eq_refl s)

-- The decimal digits of a number, `format!("{n}")`; a number has at most as many digits as its value
-- plus one, so `suc n` rounds are enough.
decimal_loop : ℕ → ℕ → Text
decimal_loop zero n = []
decimal_loop (suc fuel) n =
    let rest = decimal_loop fuel (n / 10) in
    if ltb n 10 then (n + b'0') ∷ [] else rest ++ ((n % 10 + b'0') ∷ [])

unfoldable pub decimal : ℕ → Text
unfolding decimal_loop
decimal n = decimal_loop (suc n) n
