-- ===== src/Wasm/Game/Storage.antt =====
-- The `storage` functions of clients/rust/src/wasm/mod.rs. A store is none where the browser gives
-- none, and otherwise its items and whether it takes changes.
use lobbylink.Base.{Bool, Option, none, some, if◌then◌else◌, Text, text_eq}
use lobbylink.Options.{StorageKind, local, session}

pub record Store : Type 0 where
  pub item : Text → Option Text
  pub takes : Bool

pub record Stores : Type 0 where
  pub local_storage : Option Store
  pub session_storage : Option Store

unfoldable pub backend : Stores → StorageKind → Option Store
backend stores local = stores.local_storage
backend stores session = stores.session_storage

abbrev pub set_backend : Stores → StorageKind → Store → Stores
set_backend stores local store = record stores { local_storage = some store }
set_backend stores session store = record stores { session_storage = some store }

unfoldable pub load : Stores → Option Text → StorageKind → Option Text
load stores none kind = none
load stores (some key) kind = elim (backend stores kind) [
  | none ↦ none
  | some store ↦ store.item key
]

-- Puts or removes an item, if the store takes it.
abbrev change : Store → Text → Option Text → Store
change store key value =
    if store.takes
    then record { item = λ k. if text_eq k key then value else store.item k; takes = store.takes }
    else store

unfoldable pub save : Stores → Option Text → StorageKind → Text → Stores
save stores none kind token = stores
save stores (some key) kind token = elim (backend stores kind) [
  | none ↦ stores
  | some store ↦ set_backend stores kind (change store key (some token))
]

unfoldable pub clear : Stores → Option Text → StorageKind → Stores
clear stores none kind = stores
clear stores (some key) kind = elim (backend stores kind) [
  | none ↦ stores
  | some store ↦ set_backend stores kind (change store key none)
]
