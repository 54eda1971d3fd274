-- ===== src/Base/Words.antt =====
-- Big-endian words, as `u16::to_be_bytes`, `u32::to_be_bytes` and `from_be_bytes` write and read them.
use Prim.Native.Nat.{ℕ, ◌+◌, ◌*◌, ◌/◌, ◌%◌, ◌^◌, ◌<◌}
use mathlib.Core.Path.{◌≡◌}
use mathlib.Core.List.{List, [], ◌∷◌}
use native.Mathlib.Omega.{arith}

abbrev pub IsByte : ℕ → Type 0
IsByte b = b < 256

abbrev pub u32_to_be_bytes : ℕ → List ℕ
u32_to_be_bytes n = (n / 2 ^ 24 % 256) ∷ (n / 2 ^ 16 % 256) ∷ (n / 2 ^ 8 % 256) ∷ (n % 256) ∷ []

abbrev pub u32_from_be_bytes : ℕ → ℕ → ℕ → ℕ → ℕ
u32_from_be_bytes a b c d = a * 2 ^ 24 + b * 2 ^ 16 + c * 2 ^ 8 + d

pub from-to_be_bytes :
    (n : ℕ)
    → n < 2 ^ 32
    → u32_from_be_bytes (n / 2 ^ 24 % 256) (n / 2 ^ 16 % 256) (n / 2 ^ 8 % 256) (n % 256) ≡ n
from-to_be_bytes n h = omega arith

pub from_be_bytes-lt :
    (a b c d : ℕ) → IsByte a → IsByte b → IsByte c → IsByte d → u32_from_be_bytes a b c d < 2 ^ 32
from_be_bytes-lt a b c d ha hb hc hd = omega arith

-- Reading four bytes and writing the word gives the bytes back.
pub to-from_be_bytes :
    (a b c d : ℕ)
    → IsByte a
    → IsByte b
    → IsByte c
    → IsByte d
    → u32_to_be_bytes (u32_from_be_bytes a b c d) ≡ a ∷ b ∷ c ∷ d ∷ []
to-from_be_bytes a b c d ha hb hc hd = cc (
  (let e : u32_from_be_bytes a b c d / 2 ^ 24 % 256 ≡ a = omega arith in e),
  (let e : u32_from_be_bytes a b c d / 2 ^ 16 % 256 ≡ b = omega arith in e),
  (let e : u32_from_be_bytes a b c d / 2 ^ 8 % 256 ≡ c = omega arith in e),
  (let e : u32_from_be_bytes a b c d % 256 ≡ d = omega arith in e),
)
