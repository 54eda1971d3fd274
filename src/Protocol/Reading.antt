-- ===== src/Protocol/Reading.antt =====
-- What the derived `Deserialize` of core/protocol.rs reads: objects by the names of their fields, and
-- arrays by the order of the fields, which serde accepts too. `none` is a text that does not parse as
-- the type. The step between JSON values and their text is serde_json's.
use lobbylink.Base.{
  ℕ, ◌^◌, Bool, false, List, [], ◌∷◌, Option, none, some, ltb, if◌then◌else◌, ◌==◌, ◌||◌, Text,
  codes, text_eq,
}
use lobbylink.Roster.{WirePlayer}
use lobbylink.Protocol.Values.{
  Json, Items, Fields, null, bool, num, str, arr, obj, nil, cons, end, field,
}
use lobbylink.Protocol.{
  SignalPayload, offer, answer, ice, unknown, IceServer, JoinedMsg, ServerMessage, joined,
  player_joined, player_left, player_rejoined, player_replaced, room_started, signal_from, error,
  unknown_message,
}

infixl 5 ◌>>=◌
abbrev ◌>>=◌ : {A B : Type 0} → Option A → (A → Option B) → Option B
none >>= f = none
some a >>= f = f a

unfoldable pub lookup : Text → Fields → Option Json
lookup name end = none
lookup name (field key value rest) = if text_eq key name then some value else lookup name rest

abbrev text : Json → Option Text
text (str s) = some s
text _ = none

abbrev flag : Json → Option Bool
flag (bool b) = some b
flag _ = none

-- `u16`
abbrev small : Json → Option ℕ
small (num n) = if ltb n (2 ^ 16) then some n else none
small _ = none

-- A field that must be there, one with a default, and an `Option` field, which may be null.
required : {A : Type 0} → (Json → Option A) → Text → Fields → Option A
unfolding lookup
required read name fields = lookup name fields >>= read

defaulted : {A : Type 0} → (Json → Option A) → A → Text → Fields → Option A
unfolding lookup
defaulted read default name fields = elim (lookup name fields) [
  | none ↦ some default
  | some v ↦ read v
]

abbrev nullable : {A : Type 0} → (Json → Option A) → Json → Option (Option A)
nullable read null = some none
nullable read v = read v >>= λ a. some (some a)

list_of : {A : Type 0} → (Json → Option A) → Items → Option (List A)
list_of read nil = some []
list_of read (cons v items) = do a ← read v; rest ← list_of read items; some (a ∷ rest)

abbrev list : {A : Type 0} → (Json → Option A) → Json → Option (List A)
list read (arr items) = list_of read items
list read _ = none

-- The items of an array as fields, in the order of the declaration; the last may be left out.
positional : List Text → Items → Option Fields
positional names nil = some end
positional [] (cons v items) = none
positional (name ∷ names) (cons v items) = do
  rest ← positional names items
  some (field name v rest)

-- A struct with those fields.
abbrev struct : {A : Type 0} → List Text → (Fields → Option A) → Json → Option A
struct names read (obj fields) = read fields
struct names read (arr items) = positional names items >>= read
struct names read _ = none

abbrev player_fields : List Text
player_fields = codes "id" ∷ codes "occupied" ∷ codes "connected" ∷ []

abbrev ice_server_fields : List Text
ice_server_fields = codes "urls" ∷ codes "username" ∷ codes "credential" ∷ []

abbrev joined_fields : List Text
joined_fields =
    codes "code"
    ∷ codes "selfId"
    ∷ codes "maxPlayers"
    ∷ codes "started"
    ∷ codes "resumeToken"
    ∷ codes "players"
    ∷ codes "iceServers"
    ∷ []

wire_player : Fields → Option WirePlayer
unfolding required defaulted
wire_player fields = do
  id ← required small (codes "id") fields
  occupied ← defaulted flag false (codes "occupied") fields
  connected ← defaulted flag false (codes "connected") fields
  some (record { id = id; occupied = occupied; connected = connected })

-- `string_or_seq`
unfoldable pub string_or_seq : Json → Option (List Text)
unfolding list_of
string_or_seq (str s) = some (s ∷ [])
string_or_seq (arr items) = list_of text items
string_or_seq _ = none

unfoldable pub ice_server : Fields → Option IceServer
unfolding defaulted string_or_seq
ice_server fields = do
  urls ← defaulted string_or_seq [] (codes "urls") fields
  username ← defaulted (nullable text) none (codes "username") fields
  credential ← defaulted (nullable text) none (codes "credential") fields
  some (record { urls = urls; username = username; credential = credential })

unfoldable pub joined_msg : Fields → Option JoinedMsg
unfolding required defaulted list_of positional wire_player ice_server
joined_msg fields = do
  code ← required text (codes "code") fields
  self_id ← required small (codes "selfId") fields
  max_players ← required small (codes "maxPlayers") fields
  started ← defaulted flag false (codes "started") fields
  resume_token ← required text (codes "resumeToken") fields
  players ← required (list (struct player_fields wire_player)) (codes "players") fields
  ice_servers ←
      defaulted (list (struct ice_server_fields ice_server)) [] (codes "iceServers") fields
  some (record {
    code = code;
    self_id = self_id;
    max_players = max_players;
    started = started;
    resume_token = resume_token;
    players = players;
    ice_servers = ice_servers;
  })

abbrev candidate : Json → Option (Option Json)
candidate null = some none
candidate v = some (some v)

payload_of : Text → Fields → Option SignalPayload
unfolding required defaulted
payload_of kind fields =
    if text_eq kind (codes "offer")
    then (do sdp ← required text (codes "sdp") fields; some (offer sdp))
    else if text_eq kind (codes "answer")
    then (do sdp ← required text (codes "sdp") fields; some (answer sdp))
    else if text_eq kind (codes "ice")
    then (do c ← defaulted candidate none (codes "candidate") fields; some (ice c))
    else some unknown

-- A payload comes inside of a message, where serde also takes the number of a variant as its `kind`.
abbrev kind_of : Json → Option Text
kind_of (str kind) = some kind
kind_of (num n) = some (
    if n == 0
    then codes "offer"
    else if n == 1
    then codes "answer"
    else if n == 2
    then codes "ice"
    else codes "unknown")
kind_of _ = none

-- After the `kind` of an array come all the fields of the variant.
payload_items : Text → Items → Option SignalPayload
unfolding positional payload_of
payload_items kind nil = if text_eq kind (codes "ice") then none else payload_of kind end
payload_items kind (cons v items) =
    positional
      (if text_eq kind (codes "offer") || text_eq kind (codes "answer")
        then codes "sdp" ∷ []
        else if text_eq kind (codes "ice")
        then codes "candidate" ∷ []
        else [])
      (cons v items)
    >>= payload_of kind

unfoldable pub signal_payload : Json → Option SignalPayload
unfolding required payload_of payload_items
signal_payload (obj fields) =
    required kind_of (codes "kind") fields >>= λ kind. payload_of kind fields
signal_payload (arr (cons tag items)) = kind_of tag >>= λ kind. payload_items kind items
signal_payload _ = none

message_of : Text → Fields → Option ServerMessage
unfolding required list_of positional joined_msg wire_player signal_payload
message_of kind fields =
    if text_eq kind (codes "joined")
    then (do m ← joined_msg fields; some (joined m))
    else if text_eq kind (codes "player-joined")
    then (do
      id ← required small (codes "playerId") fields
      players ← required (list (struct player_fields wire_player)) (codes "players") fields
      some (player_joined id players))
    else if text_eq kind (codes "player-left")
    then (do
      id ← required small (codes "playerId") fields
      reason ← required text (codes "reason") fields
      some (player_left id reason))
    else if text_eq kind (codes "player-rejoined")
    then (do
      id ← required small (codes "playerId") fields
      was_replacement ← required flag (codes "wasReplacement") fields
      some (player_rejoined id was_replacement))
    else if text_eq kind (codes "player-replaced")
    then (do id ← required small (codes "playerId") fields; some (player_replaced id))
    else if text_eq kind (codes "room-started")
    then some room_started
    else if text_eq kind (codes "signal")
    then (do
      from ← required small (codes "from") fields
      payload ← required signal_payload (codes "payload") fields
      some (signal_from from payload))
    else if text_eq kind (codes "error")
    then (do
      code ← required text (codes "code") fields
      message ← required text (codes "message") fields
      some (error code message))
    else some unknown_message

-- The fields of a message in an array, after its type.
fields_of : Text → List Text
fields_of kind =
    if text_eq kind (codes "joined")
    then joined_fields
    else if text_eq kind (codes "player-joined")
    then codes "playerId" ∷ codes "players" ∷ []
    else if text_eq kind (codes "player-left")
    then codes "playerId" ∷ codes "reason" ∷ []
    else if text_eq kind (codes "player-rejoined")
    then codes "playerId" ∷ codes "wasReplacement" ∷ []
    else if text_eq kind (codes "player-replaced")
    then codes "playerId" ∷ []
    else if text_eq kind (codes "signal")
    then codes "from" ∷ codes "payload" ∷ []
    else if text_eq kind (codes "error")
    then codes "code" ∷ codes "message" ∷ []
    else []

unfoldable pub server_message : Json → Option ServerMessage
unfolding required positional message_of fields_of
server_message (obj fields) = required text (codes "type") fields >>= λ kind. message_of kind fields
server_message (arr (cons tag items)) =
    text tag >>= λ kind. positional (fields_of kind) items >>= message_of kind
server_message _ = none
