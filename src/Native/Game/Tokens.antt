-- ===== src/Native/Game/Tokens.antt =====
-- The resume token in the file system.
use lobbylink.Base.{
  ◌≡◌, ◌≢◌, refl, ap, ◌∙◌, true, [], ◌∷◌, Option, none, some, Text, arith, if◌then◌else◌, text_eq,
  text_eq→eq, text_eq_refl,
}
use lobbylink.Native.Game.Storage.{
  Files, space_bytes, skip_spaces, trim_start, trim_end, trim, load, save, clear,
}

pub save_there :
    (files : Files) (path token : Text) → save files true (some path) token path ≡ some token
unfolding save
save_there files path token = rw (text_eq_refl path)

-- No space starts anywhere in the text.
abbrev pub HasNoSpace : Text → Type 0
HasNoSpace [] = Unit
HasNoSpace (b ∷ s) = (space_bytes (b ∷ s) ≡ 0) × HasNoSpace s

trim_start_id : (s : Text) → HasNoSpace s → trim_start s ≡ s
unfolding trim_start skip_spaces
trim_start_id [] h = refl
trim_start_id (b ∷ s) h = ground (arith, h.0)

trim_end_id : (s : Text) → HasNoSpace s → trim_end s ≡ s
unfolding trim_end
trim_end_id [] h = refl
trim_end_id (b ∷ s) h =
    ground (arith, trim_start_id (b ∷ s) h, trim_end_id s h.1, text_eq→eq (trim_start (b ∷ s)) [])

trim_id : (s : Text) → HasNoSpace s → trim s ≡ s
unfolding trim
trim_id s h = ap trim_end (trim_start_id s h) ∙ trim_end_id s h

elsewhere :
    (files : Files) (path p : Text) (content : Option Text)
    → p ≢ path
    → (if text_eq p path then content else files p) ≡ files p
elsewhere files path p content other = ground (arith, text_eq→eq p path)

-- A non-empty token with no White_Space character in it, in ASCII or beyond, is loaded again after it
-- is saved, and no longer after it is cleared; the other files stay as they are.
pub load-save :
    (files : Files) (path token : Text)
    → token ≢ []
    → HasNoSpace token
    → (load (save files true (some path) token) (some path) ≡ some token)
      × (load (clear (save files true (some path) token) true (some path)) (some path) ≡ none)
      × ((p : Text)
          → p ≢ path
          → (save files true (some path) token p ≡ files p)
            × (clear files true (some path) p ≡ files p))
unfolding load save clear
load-save files path token some_token plain = (
  ground (arith, text_eq_refl path, trim_id token plain, text_eq→eq token []),
  ground (arith, text_eq_refl path),
  λ p other. (elsewhere files path p (some token) other, elsewhere files path p none other),
)
