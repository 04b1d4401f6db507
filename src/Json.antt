-- ===== src/Json.antt =====
-- JSON values as Python holds them: dicts in insertion order, lists, texts, bytes, and values that
-- no code here looks into.
use verification_engine.Base.{Bool, String, bool_eq, nat_eq, option_eq, string_eq}

mutual
  pub data Json (F : Type 0) : Type 0 where
    null : Json F
    flag : Bool → Json F
    number : F → Json F
    text : String → Json F
    bytes : Json F
    list : Items F → Json F
    dict : Fields F → Json F

  pub data Items (F : Type 0) : Type 0 where
    nil : Items F
    item : Json F → Items F → Items F

  pub data Fields (F : Type 0) : Type 0 where
    end : Fields F
    field : String → Json F → Fields F → Fields F
