-- ===== src/Url.antt =====
-- clients/rust/src/core/url.rs: the signaling URL and the default Origin, over bytes.
pub mod Split
pub mod Shape
pub mod Laws
mod Examples
use lobbylink.Base.{
  ℕ, zero, suc, ◌+◌, Bool, true, false, List, [], ◌∷◌, ◌++◌, Option, none, some, leb, ◌==◌,
  if◌then◌else◌, ◌&&◌, ◌||◌, map, Text, codes, text_eq,
}
use mathlib.Core.Option as OptionOf
use lobbylink.Base.Outcome.{Outcome, ok, err, ◌>>=◌, ◌>>◌, reject_if}
use lobbylink.Error.{LobbyError, new}

-- `str::strip_prefix`
unfoldable pub strip_prefix : Text → Text → Option Text
strip_prefix [] s = some s
strip_prefix (c ∷ pat) [] = none
strip_prefix (c ∷ pat) (d ∷ s) = if c == d then strip_prefix pat s else none

abbrev pub longer : ℕ → Option (Text × Text) → Option (Text × Text)
longer c none = none
longer c (some (before, after)) = some (c ∷ before, after)

-- `str::split_once`, for a pattern that is not empty
unfoldable pub split_once : Text → Text → Option (Text × Text)
split_once pat [] = none
split_once pat (c ∷ s) =
    let later = longer c (split_once pat s) in
    elim (strip_prefix pat (c ∷ s)) [ none ↦ later | some after ↦ some ([], after) ]

-- `s.split(c).next()`: what stands before the first `c`
unfoldable pub before_byte : ℕ → Text → Text
before_byte c [] = []
before_byte c (d ∷ s) = if d == c then [] else d ∷ before_byte c s

-- From the first `c` on: `&rest[i..]` for `rest.find(c)`, and nothing if there is none.
unfoldable pub from_byte : ℕ → Text → Text
from_byte c [] = []
from_byte c (d ∷ s) = let later = from_byte c s in if d == c then d ∷ s else later

unfoldable pub trim_end_matches : ℕ → Text → Text
trim_end_matches c [] = []
trim_end_matches c (d ∷ s) =
    let rest = trim_end_matches c s in if (d == c) && text_eq rest [] then [] else d ∷ rest

unfoldable pub ends_with : Text → Text → Bool
ends_with pat [] = text_eq [] pat
ends_with pat (c ∷ s) = text_eq (c ∷ s) pat || ends_with pat s

abbrev pub to_ascii_lower : ℕ → ℕ
to_ascii_lower c = if leb b'A' c && leb c b'Z' then c + 32 else c

abbrev pub invalid : Text → LobbyError
invalid server = new (codes "invalid-server-url") (codes "invalid server URL: " ++ server)

abbrev pub unsupported : Text → LobbyError
unsupported other =
    new (codes "invalid-server-url")
      (codes "unsupported scheme " ++ (other ++ codes ": in server URL"))

unfoldable pub ws_scheme_of : Text → Outcome LobbyError Text
ws_scheme_of scheme =
    if text_eq scheme (codes "http") || text_eq scheme (codes "ws")
    then ok (codes "ws")
    else if text_eq scheme (codes "https") || text_eq scheme (codes "wss")
    then ok (codes "wss")
    else err (unsupported scheme)

abbrev pub or_invalid : Text → Option (Text × Text) → Outcome LobbyError (Text × Text)
or_invalid server none = err (invalid server)
or_invalid server (some parts) = ok parts

-- The end of `signaling_url`, with the path that has no slash at its end.
abbrev pub with_ws : Text → Text → Text → Text
with_ws ws_scheme authority path =
    if ends_with (codes "/ws") path
    then ws_scheme ++ (codes "://" ++ (authority ++ path))
    else ws_scheme ++ (codes "://" ++ (authority ++ (path ++ codes "/ws")))

-- The rest of `signaling_url`, after the scheme.
unfoldable pub build_url : Text → Text → Text → Outcome LobbyError Text
build_url server ws_scheme rest = do
  let rest' = before_byte b'?' (before_byte b'#' rest)
  let authority = before_byte b'/' rest'
  reject_if (text_eq authority []) (invalid server)
  ok (with_ws ws_scheme authority (trim_end_matches b'/' (from_byte b'/' rest')))

unfoldable pub signaling_url : Text → Outcome LobbyError Text
signaling_url server = do
  (scheme, rest) ← or_invalid server (split_once (codes "://") server)
  ws_scheme ← ws_scheme_of (map to_ascii_lower scheme)
  build_url server ws_scheme rest

-- `unwrap_or(("wss", ws_url))`
abbrev or_wss : Text → Option (Text × Text) → Text × Text
or_wss ws_url none = (codes "wss", ws_url)
or_wss ws_url (some parts) = parts

unfoldable pub default_origin : Text → Text
default_origin ws_url =
    let (scheme, rest) = or_wss ws_url (split_once (codes "://") ws_url) in
    (if text_eq scheme (codes "ws") then codes "http" else codes "https")
    ++ (codes "://" ++ before_byte b'/' rest)
