-- ===== src/Options/Laws.antt =====
-- Which room codes `validate_code` accepts.
use lobbylink.Base.{refl, ℕ, ◌≤◌, ◌≡◌, ◌↔◌, ◌⊎◌, true, [], ◌∷◌, length, All, Text, codes, arith}
use lobbylink.Base.Outcome.{ok, err}
use lobbylink.Error.{LobbyError}
use lobbylink.Options.{all_code_bytes, validate_code}

-- A byte of `[A-Za-z0-9_-]`.
abbrev pub IsCodeByte : ℕ → Type 0
IsCodeByte b =
    ((b'0' ≤ b) × (b ≤ b'9'))
    ⊎ ((b'A' ≤ b) × (b ≤ b'Z'))
    ⊎ ((b'a' ≤ b) × (b ≤ b'z'))
    ⊎ (b ≡ b'_')
    ⊎ (b ≡ b'-')

all_code_bytes_exact : (code : Text) → (all_code_bytes code ≡ true) ↔ All IsCodeByte code
unfolding all_code_bytes
all_code_bytes_exact [] = ((λ h. tt), λ h. refl)
all_code_bytes_exact (b ∷ code) = ground (arith, all_code_bytes_exact code)

-- A room code is accepted exactly when it has 4 to 64 bytes, each a letter, a digit, `_` or `-`;
-- else the error code is "invalid-code".
pub validate_code_exact :
    (code : Text)
    → ((validate_code code ≡ ok tt)
        ↔ ((4 ≤ length code) × (length code ≤ 64) × All IsCodeByte code))
      × ((e : LobbyError) → validate_code code ≡ err e → e.code ≡ codes "invalid-code")
unfolding validate_code
validate_code_exact code = (
  (
    (λ h. ground (arith, all_code_bytes_exact code)),
    λ h. ground (arith, all_code_bytes_exact code),
  ),
  λ e h. ground arith,
)
