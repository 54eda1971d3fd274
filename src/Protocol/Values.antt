-- ===== src/Protocol/Values.antt =====
-- JSON values, `serde_json::Value`. A number that is no natural number is kept as its text. An
-- object has no key twice.
use lobbylink.Base.{ℕ, Bool, Text}

mutual
  pub data Json : Type 0 where
    null : Json
    bool : Bool → Json
    num : ℕ → Json
    other_num str : Text → Json
    arr : Items → Json
    obj : Fields → Json

  pub data Items : Type 0 where
    nil : Items
    cons : Json → Items → Items

  pub data Fields : Type 0 where
    end : Fields
    field : Text → Json → Fields → Fields
