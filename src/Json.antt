-- ===== src/Json.antt =====
-- The JSON library that the codecs call: a type of values and the accessors in use.
use prelay_server.Base.{ℕ, String, Option, List, Bool}
use prelay_server.Text.{Text}

pub record Json : Type 1 where
  pub Value : Type 0
  pub from_str : Text → Option Value
  pub get : String → Value → Option Value
  pub pointer : String → Value → Option Value
  pub as_str : Value → Option Text
  pub as_u64 : Value → Option ℕ
  pub as_array : Value → Option (List Value)
  pub is_null : Value → Bool
