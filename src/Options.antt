-- ===== src/Options.antt =====
-- clients/rust/src/core/options.rs. `server` and the texts are bytes; the connect options stand with
-- the backends.
pub mod Laws
mod Examples
use lobbylink.Base.{
  ℕ, Bool, true, false, List, [], ◌∷◌, Option, none, leb, ◌==◌, if◌then◌else◌, ◌&&◌, ◌||◌, length,
  Text, codes,
}
use lobbylink.Base.Outcome.{Outcome, ok, err}
use lobbylink.Error.{LobbyError, new}

pub data ReconnectPolicy : Type 0 where
  token_only token_or_claim_after_timeout claim_after_timeout host_approval : ReconnectPolicy

-- Which browser storage holds the token; unused by the native backend.
pub data StorageKind : Type 0 where
  local session : StorageKind

pub record CreateOptions : Type 0 where
  pub max_players : ℕ
  pub wait_until_full : Bool
  pub allow_late_join : Bool
  pub allow_reconnect : Bool
  pub allow_replacement : Bool
  pub reconnect_policy : Option ReconnectPolicy
  pub claim_after_ms : Option ℕ

-- `CreateOptions::new`
unfoldable pub create_options : ℕ → CreateOptions
create_options max_players = record {
  max_players = max_players;
  wait_until_full = false;
  allow_late_join = true;
  allow_reconnect = true;
  allow_replacement = true;
  reconnect_policy = none;
  claim_after_ms = none;
}

-- `u8::is_ascii_alphanumeric`
abbrev pub is_ascii_alphanumeric : ℕ → Bool
is_ascii_alphanumeric b =
    (leb b'0' b && leb b b'9') || ((leb b'A' b && leb b b'Z') || (leb b'a' b && leb b b'z'))

unfoldable pub all_code_bytes : Text → Bool
all_code_bytes [] = true
all_code_bytes (b ∷ code) =
    (is_ascii_alphanumeric b || (b == b'_' || b == b'-')) && all_code_bytes code

unfoldable pub validate_code : Text → Outcome LobbyError (Unit {0})
validate_code code =
    if (leb 4 (length code) && leb (length code) 64) && all_code_bytes code
    then ok tt
    else err (new (codes "invalid-code") (codes "room code must be 4-64 chars of [A-Za-z0-9_-]"))
