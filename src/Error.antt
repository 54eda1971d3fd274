-- ===== src/Error.antt =====
-- clients/rust/src/core/error.rs and clients/rust/src/core/limits.rs.
use lobbylink.Base.{ℕ, ◌*◌, ◌^◌, Text}

pub record LobbyError : Type 0 where
  pub code : Text
  pub message : Text

abbrev pub new : Text → Text → LobbyError
new code message = record { code = code; message = message }

abbrev pub max_best_effort : ℕ
max_best_effort = 16_000

abbrev pub send_high_water : ℕ
send_high_water = 2 ^ 20

abbrev pub send_low_water : ℕ
send_low_water = 256 * 1024

abbrev pub channel_timeout_ms : ℕ
channel_timeout_ms = 30_000

abbrev pub max_peer_rebuilds : ℕ
max_peer_rebuilds = 3
