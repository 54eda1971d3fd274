-- ===== src/Native/Game/Storage.antt =====
-- clients/rust/src/native/mod.rs, `storage`: the resume token in a file. A file system is the texts
-- of its readable files; a write or a removal may fail, and is then taken to leave the file as it
-- was (`fs::write` may also leave a part). Texts are bytes in UTF-8.
use Prim.Native.Nat.{zero}
use lobbylink.Base.{
  suc, ltb, ◌+◌, ◌-◌, ◌*◌, ℕ, Bool, [], ◌∷◌, Option, none, some, leb, ◌==◌, ◌&&◌, ◌||◌,
  if◌then◌else◌, Text, text_eq,
}

abbrev pub Files : Type 0
Files = Text → Option Text

-- `char::is_whitespace`, on the number of a character: Unicode's White_Space.
unfoldable pub is_space : ℕ → Bool
is_space c =
    ((leb 9 c && leb c 13) || (c == 32 || (c == 133 || c == 160)))
    || ((c == 5760 || (leb 8192 c && leb c 8202))
        || ((c == 8232 || c == 8233) || (c == 8239 || (c == 8287 || c == 12288))))

-- The bytes of a space of two or three bytes with the first byte `a`.
abbrev pub two_bytes : ℕ → Text → ℕ
two_bytes a [] = 0
two_bytes a (b ∷ s) = if is_space ((a - 192) * 64 + (b - 128)) then 2 else 0

abbrev pub three_bytes : ℕ → Text → ℕ
three_bytes a [] = 0
three_bytes a (b ∷ []) = 0
three_bytes a (b ∷ c ∷ s) =
    if is_space ((a - 224) * 4096 + (b - 128) * 64 + (c - 128)) then 3 else 0

-- How many bytes the space has that a text in UTF-8 starts with, 0 if it starts with none or within
-- a character. No space has four bytes.
unfoldable pub space_bytes : Text → ℕ
space_bytes [] = 0
space_bytes (a ∷ s) =
    if ltb a 128
    then (if is_space a then 1 else 0)
    else if ltb a 192
    then 0
    else if ltb a 224
    then two_bytes a s
    else three_bytes a s

-- The text without spaces at its start, where the next `more` bytes belong to a space.
unfoldable pub skip_spaces : ℕ → Text → Text
skip_spaces more [] = []
skip_spaces (suc more) (b ∷ s) = skip_spaces more s
skip_spaces zero (b ∷ s) = elim (space_bytes (b ∷ s)) [
  | zero ↦ b ∷ s
  | suc more ↦ skip_spaces more s
]

unfoldable pub trim_start : Text → Text
trim_start s = skip_spaces 0 s

-- The text up to the spaces that it ends with.
unfoldable pub trim_end : Text → Text
trim_end [] = []
trim_end (b ∷ s) = let rest = trim_end s in if text_eq (trim_start (b ∷ s)) [] then [] else b ∷ rest

unfoldable pub trim : Text → Text
trim s = trim_end (trim_start s)

abbrev non_empty : Text → Option Text
non_empty token = if text_eq token [] then none else some token

unfoldable pub load : Files → Option Text → Option Text
load files none = none
load files (some path) = elim (files path) [ none ↦ none | some text ↦ non_empty (trim text) ]

abbrev pub write : Files → Text → Option Text → Files
write files path content = λ p. if text_eq p path then content else files p

unfoldable pub save : Files → Bool → Option Text → Text → Files
save files can_write none token = files
save files can_write (some path) token = if can_write then write files path (some token) else files

unfoldable pub clear : Files → Bool → Option Text → Files
clear files can_remove none = files
clear files can_remove (some path) = if can_remove then write files path none else files
