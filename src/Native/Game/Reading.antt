-- ===== src/Native/Game/Reading.antt =====
-- What the reader task passes on.
use lobbylink.Base.{◌≡◌, refl, ap, List, [], ◌∷◌, ◌++◌, none, some, All, map}
use lobbylink.Protocol.{ServerMessage}
use lobbylink.Native.Actor.Messages.{ws, ws_closed}
use lobbylink.Native.Game.Connect.{
  Item, text, closing, other_frame, ws_error, ws_end, time_over, reader,
}

-- What the reader passes on, of what it reads before the connection ends.
unfoldable pub messages_in : List Item → List ServerMessage
messages_in [] = []
messages_in (text (some msg) ∷ items) = msg ∷ messages_in items
messages_in (_ ∷ items) = messages_in items

abbrev pub IsEnd : Item → Type 0
IsEnd (closing code) = Unit
IsEnd ws_error = Unit
IsEnd ws_end = Unit
IsEnd _ = ⊥

abbrev pub IsGoing : Item → Type 0
IsGoing (text msg) = Unit
IsGoing other_frame = Unit
IsGoing _ = ⊥

-- The actor gets every lobby message that parses, in order, until the connection ends; then it gets
-- exactly one note that the connection ended, and nothing after it.
pub reader_exact :
    (items : List Item) (end : Item) (rest : List Item)
    → All IsGoing items
    → IsEnd end
    → reader (items ++ (end ∷ rest)) ≡ map ws (messages_in items) ++ (ws_closed ∷ [])
unfolding reader messages_in
reader_exact [] (closing code) rest going e = refl
reader_exact [] ws_error rest going e = refl
reader_exact [] ws_end rest going e = refl
reader_exact [] (text msg) rest going e = absurd e
reader_exact [] other_frame rest going e = absurd e
reader_exact [] time_over rest going e = absurd e
reader_exact (text (some msg) ∷ items) end rest going e =
    ap (λ l. ws msg ∷ l) (reader_exact items end rest going.1 e)
reader_exact (text none ∷ items) end rest going e = reader_exact items end rest going.1 e
reader_exact (other_frame ∷ items) end rest going e = reader_exact items end rest going.1 e
reader_exact (closing code ∷ items) end rest going e = absurd going.0
reader_exact (ws_error ∷ items) end rest going e = absurd going.0
reader_exact (ws_end ∷ items) end rest going e = absurd going.0
reader_exact (time_over ∷ items) end rest going e = absurd going.0
