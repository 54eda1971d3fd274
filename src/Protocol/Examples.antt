-- ===== src/Protocol/Examples.antt =====
-- Signaling messages: the theorems at concrete messages.
use lobbylink.Base.{codes, none, refl, some, text_eq, ◌≡◌}
use lobbylink.Protocol.{answer, player_left}
use lobbylink.Protocol.Values.{arr, cons, end, field, nil, num, str}
use lobbylink.Protocol.Reading.{lookup, signal_payload, server_message}

type_there :
    lookup
      (codes "type")
      (field (codes "type") (str (codes "weather")) (field (codes "wind") (num 5) end))
    ≡ some (str (codes "weather"))
unfolding lookup text_eq
type_there = refl

-- serde reads a message from an array too, and the number of a variant as the kind of a payload.
from_array :
    server_message (
      arr
        (cons (str (codes "player-left")) (cons (num 2) (cons (str (codes "explicit-leave")) nil))))
    ≡ some (player_left 2 (codes "explicit-leave"))
unfolding server_message text_eq
from_array = refl

from_number :
    signal_payload (arr (cons (num 1) (cons (str (codes "v=0")) nil))) ≡ some (answer (codes "v=0"))
unfolding signal_payload text_eq
from_number = refl

-- In an array the candidate cannot be left out.
no_candidate : signal_payload (arr (cons (str (codes "ice")) nil)) ≡ none
unfolding signal_payload text_eq
no_candidate = refl
