-- ===== src/Url/Shape.antt =====
-- The shape of every signaling URL.
use mathlib.Core.Path.{subst}
use lobbylink.Base.{
  ℕ, ◌≡◌, ◌≢◌, refl, sym, ap, ◌∙◌, ◌⊎◌, inl, inr, true, false, [], ◌∷◌, ◌++◌, if◌then◌else◌,
  All-append, Text, codes, text_eq, text_eq_refl, arith, Bool-cases, map,
}
use lobbylink.Base.Outcome.{ok-injective, >>=-eq-ok, ok, err}
use lobbylink.Url.{
  invalid, build_url, or_invalid, split_once, before_byte, from_byte, trim_end_matches, ends_with,
  to_ascii_lower, ws_scheme_of, with_ws, signaling_url,
}
use lobbylink.Url.Split.{
  Absent, StartsWith, before_byte-Absent, before_byte-keeps, from_byte-keeps, from_byte-starts,
  trim-keeps, trim-starts, ws_path, ends_with-append, ends_with-nonempty,
}

-- ws://authority/path/ws or wss://authority/path/ws, with no query and no fragment.
pub record IsSignalingUrl (scheme authority path url : Text) : Type 0 where
  pub ws : (scheme ≡ codes "ws") ⊎ (scheme ≡ codes "wss")
  pub some_authority : authority ≢ []
  pub plain_authority : Absent b'/' authority × Absent b'?' authority × Absent b'#' authority
  pub slash : StartsWith b'/' path
  pub plain_path : Absent b'?' path × Absent b'#' path
  pub ends : ends_with ws_path path ≡ true
  pub shape : url ≡ scheme ++ (codes "://" ++ (authority ++ path))

ws_scheme_of-ws : (s t : Text) → ws_scheme_of s ≡ ok t → (t ≡ codes "ws") ⊎ (t ≡ codes "wss")
unfolding ws_scheme_of
ws_scheme_of-ws s t h = ground arith

-- The path that is asked for: "/ws" is added unless it is there.
abbrev full_path : Text → Text
full_path p = if ends_with ws_path p then p else p ++ ws_path

starts-append : (p : Text) → (p ≡ []) ⊎ StartsWith b'/' p → StartsWith b'/' (p ++ ws_path)
starts-append [] h = refl
starts-append (c ∷ p) h = ground arith

full_path_slash : (p : Text) → (p ≡ []) ⊎ StartsWith b'/' p → StartsWith b'/' (full_path p)
full_path_slash p h = elim (Bool-cases (ends_with ws_path p)) [
  | inl there ↦ ground (arith, ends_with-nonempty p there)
  | inr not_yet ↦ rw not_yet (starts-append p h)
]

full_path_ends : (p : Text) → ends_with ws_path (full_path p) ≡ true
full_path_ends p = ground (arith, ends_with-append p)

full_path_plain : (c : ℕ) (p : Text) → Absent c ws_path → Absent c p → Absent c (full_path p)
full_path_plain c p w h = elim (Bool-cases (ends_with ws_path p)) [
  | inl there ↦ rw there h
  | inr not_yet ↦ rw not_yet (All-append (λ d. d ≢ c) p ws_path h w)
]

module _ (ws_scheme rest : Text) (ws : (ws_scheme ≡ codes "ws") ⊎ (ws_scheme ≡ codes "wss")) where
  rest' : Text
  rest' = before_byte b'?' (before_byte b'#' rest)

  path : Text
  path = trim_end_matches b'/' (from_byte b'/' rest')

  rest'-plain : Absent b'?' rest' × Absent b'#' rest'
  unfolding rest'
  rest'-plain = (
    before_byte-Absent b'?' (before_byte b'#' rest),
    before_byte-keeps b'?' b'#' (before_byte b'#' rest) (before_byte-Absent b'#' rest),
  )

  assembled :
      before_byte b'/' rest' ≢ []
      → IsSignalingUrl ws_scheme
          (before_byte b'/' rest')
          (full_path path)
          (with_ws ws_scheme (before_byte b'/' rest') path)
  unfolding path
  assembled h = record {
    ws = ws;
    some_authority = h;
    plain_authority = (
      before_byte-Absent b'/' rest',
      before_byte-keeps b'/' b'?' rest' rest'-plain.0,
      before_byte-keeps b'/' b'#' rest' rest'-plain.1,
    );
    slash =
        full_path_slash path
          (trim-starts b'/' b'/' (from_byte b'/' rest') (from_byte-starts b'/' rest'));
    plain_path = (
      full_path_plain b'?' path (omega arith)
          (trim-keeps b'/' b'?' _ (from_byte-keeps b'/' b'?' rest' rest'-plain.0)),
      full_path_plain b'#' path (omega arith)
          (trim-keeps b'/' b'#' _ (from_byte-keeps b'/' b'#' rest' rest'-plain.1)),
    );
    ends = full_path_ends path;
    shape = ground arith;
  }

abbrev Built : Text → Type 0
Built url =
    (scheme : Text) × (authority : Text) × (path : Text) × IsSignalingUrl scheme authority path url

build_url-Built :
    (server ws_scheme rest url : Text)
    → (ws_scheme ≡ codes "ws") ⊎ (ws_scheme ≡ codes "wss")
    → build_url server ws_scheme rest ≡ ok url
    → Built url
unfolding build_url path rest'
build_url-Built server ws_scheme rest url ws h =
    elim (Bool-cases (text_eq (before_byte b'/' (rest' ws_scheme rest ws)) [])) [
      | inl empty ↦ absurd (cc (build_empty empty))
      | inr more ↦
          let shape =
            assembled ws_scheme rest ws
              (λ e. cc (more, ap (λ t. text_eq t []) e, text_eq_refl [])) in
          (
            ws_scheme,
            before_byte b'/' (rest' ws_scheme rest ws),
            full_path (path ws_scheme rest ws),
            subst (IsSignalingUrl _ _ _) (ok-injective _ url (sym (build_more more) ∙ h)) shape,
          )
    ]
  where
    build_empty :
        text_eq (before_byte b'/' (rest' ws_scheme rest ws)) [] ≡ true
        → build_url server ws_scheme rest ≡ err (invalid server)
    build_empty e = rw e

    build_more :
        text_eq (before_byte b'/' (rest' ws_scheme rest ws)) [] ≡ false
        → build_url server ws_scheme rest
          ≡ ok (
              with_ws ws_scheme
                (before_byte b'/' (rest' ws_scheme rest ws))
                (path ws_scheme rest ws))
    build_more e = rw e

-- What `signaling_url` returns is always a signaling URL: scheme ws or wss, an authority that is not
-- empty, no query and no fragment, and a path that ends in "/ws".
pub signaling_url-IsSignalingUrl :
    (server url : Text)
    → signaling_url server ≡ ok url
    → (scheme : Text) × (authority : Text) × (path : Text) × IsSignalingUrl scheme authority path
        url
unfolding signaling_url
signaling_url-IsSignalingUrl server url h =
    let ((scheme, rest), split, after) =
      >>=-eq-ok (or_invalid server (split_once (codes "://") server)) _ h in
    let (ws_scheme, known, built) = >>=-eq-ok (ws_scheme_of (map to_ascii_lower scheme)) _ after in
    build_url-Built server ws_scheme rest url (ws_scheme_of-ws _ ws_scheme known) built
