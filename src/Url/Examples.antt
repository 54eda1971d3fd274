-- ===== src/Url/Examples.antt =====
-- Signaling URLs: tests, and the theorems at a concrete server.
use lobbylink.Base.{◌≡◌, refl, codes, Text, text_eq}
use lobbylink.Base.Outcome.{ok}
use lobbylink.Url.{
  split_once, strip_prefix, ws_scheme_of, build_url, before_byte, ends_with, trim_end_matches,
  from_byte, signaling_url,
}
use lobbylink.Url.Shape.{IsSignalingUrl, signaling_url-IsSignalingUrl}

signaling_url_https :
    signaling_url (codes "HTTPS://play.example/games?x=1")
    ≡ ok (codes "wss://play.example/games/ws")
unfolding signaling_url split_once strip_prefix ws_scheme_of text_eq build_url before_byte ends_with
    trim_end_matches from_byte
signaling_url_https = refl

signaling_url-IsSignalingUrl_example :
    (scheme : Text) × (authority : Text) × (path : Text) × IsSignalingUrl scheme authority path
      (codes "wss://play.example/games/ws")
signaling_url-IsSignalingUrl_example =
    signaling_url-IsSignalingUrl (codes "HTTPS://play.example/games?x=1")
      (codes "wss://play.example/games/ws") signaling_url_https
