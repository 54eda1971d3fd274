-- ===== src/Options/Examples.antt =====
-- Room codes: the theorem at a concrete code.
use lobbylink.Base.{◌≤◌, ◌≡◌, ◌↔◌, refl, length, All, codes}
use lobbylink.Base.Outcome.{ok, err}
use lobbylink.Error.{LobbyError}
use lobbylink.Options.{all_code_bytes, validate_code}
use lobbylink.Options.Laws.{IsCodeByte, validate_code_exact}

validate_code_good : validate_code (codes "Room_1-a") ≡ ok tt
unfolding validate_code all_code_bytes
validate_code_good = refl

validate_code_exact_example :
    ((validate_code (codes "Room_1-a") ≡ ok tt) ↔ (
      (4 ≤ length (codes "Room_1-a"))
      × (length (codes "Room_1-a") ≤ 64)
      × All IsCodeByte (codes "Room_1-a")))
    × ((e : LobbyError) → validate_code (codes "Room_1-a") ≡ err e → e.code ≡ codes "invalid-code")
validate_code_exact_example = validate_code_exact (codes "Room_1-a")
