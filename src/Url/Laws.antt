-- ===== src/Url/Laws.antt =====
-- The signaling URLs are kept as they are, and their default Origin.
use mathlib.Core.Path.{subst}
use lobbylink.Base.{
  ◌≡◌, ◌≢◌, refl, ap, ◌∙◌, ◌⊎◌, inl, inr, [], ◌++◌, if◌then◌else◌, All-append, Text, codes, text_eq,
  text_eq→eq, arith,
}
use lobbylink.Base.Outcome.{ok}
use lobbylink.Url.{
  build_url, strip_prefix, split_once, before_byte, ws_scheme_of, signaling_url, default_origin,
}
use lobbylink.Url.Split.{before_byte_id, before_byte-append, from_byte-append, trim_id}
use lobbylink.Url.Shape.{IsSignalingUrl}

-- On the parts of a signaling URL, `build_url` puts the URL together again.
build_url_fixed :
    (server scheme authority path url : Text)
    → IsSignalingUrl scheme authority path url
    → build_url server scheme (authority ++ path) ≡ ok url
unfolding build_url
build_url_fixed server scheme authority path url u = ground (
  arith,
  before_byte_id b'#' (authority ++ path)
      (All-append (λ d. d ≢ b'#') authority path u.plain_authority.2 u.plain_path.1),
  before_byte_id b'?' (authority ++ path)
      (All-append (λ d. d ≢ b'?') authority path u.plain_authority.1 u.plain_path.0),
  before_byte-append b'/' authority path u.plain_authority.0 u.slash,
  from_byte-append b'/' authority path u.plain_authority.0 u.slash,
  trim_id path u.ends,
  u.ends,
  u.shape,
  text_eq→eq authority [],
)

-- How the two schemes are read.
signaling_ws :
    (rest : Text)
    → signaling_url (codes "ws://" ++ rest) ≡ build_url (codes "ws://" ++ rest) (codes "ws") rest
unfolding signaling_url split_once strip_prefix ws_scheme_of text_eq
signaling_ws rest = refl

signaling_wss :
    (rest : Text)
    → signaling_url (codes "wss://" ++ rest) ≡ build_url (codes "wss://" ++ rest) (codes "wss") rest
unfolding signaling_url split_once strip_prefix ws_scheme_of text_eq
signaling_wss rest = refl

origin_ws :
    (rest : Text)
    → default_origin (codes "ws://" ++ rest)
      ≡ codes "http" ++ (codes "://" ++ before_byte b'/' rest)
unfolding default_origin split_once strip_prefix text_eq
origin_ws rest = refl

origin_wss :
    (rest : Text)
    → default_origin (codes "wss://" ++ rest)
      ≡ codes "https" ++ (codes "://" ++ before_byte b'/' rest)
unfolding default_origin split_once strip_prefix text_eq
origin_wss rest = refl

-- The scheme of the Origin.
abbrev pub http_scheme : Text → Text
http_scheme scheme = if text_eq scheme (codes "ws") then codes "http" else codes "https"

-- A signaling URL is a fixed point of `signaling_url`, and its default Origin is http:// or
-- https:// with the authority alone.
pub signaling_url_fixed :
    (scheme authority path url : Text)
    → IsSignalingUrl scheme authority path url
    → (signaling_url url ≡ ok url)
      × (default_origin url ≡ http_scheme scheme ++ (codes "://" ++ authority))
unfolding text_eq
signaling_url_fixed scheme authority path url u = by_scheme u.ws
  where
    cut : before_byte b'/' (authority ++ path) ≡ authority
    cut = before_byte-append b'/' authority path u.plain_authority.0 u.slash

    by_scheme :
        (scheme ≡ codes "ws") ⊎ (scheme ≡ codes "wss")
        → (signaling_url url ≡ ok url)
          × (default_origin url ≡ http_scheme scheme ++ (codes "://" ++ authority))
    by_scheme (inl ws) =
        let u' = subst (λ s. IsSignalingUrl s authority path url) ws u in
        (
          ap signaling_url u'.shape
              ∙ signaling_ws (authority ++ path)
              ∙ build_url_fixed _ (codes "ws") authority path url u',
          ap default_origin u'.shape ∙ origin_ws (authority ++ path) ∙ rw (ws, cut),
        )
    by_scheme (inr wss) =
        let u' = subst (λ s. IsSignalingUrl s authority path url) wss u in
        (
          ap signaling_url u'.shape
              ∙ signaling_wss (authority ++ path)
              ∙ build_url_fixed _ (codes "wss") authority path url u',
          ap default_origin u'.shape ∙ origin_wss (authority ++ path) ∙ rw (wss, cut),
        )
