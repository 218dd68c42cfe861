-- ===== src/Json.antt =====
-- The JSON library as an interface: what the modelled code uses of nlohmann::json.
use server_application.Common.{Bool, Text, ℤ, Option, some, ◌≡◌, Map, lookup, text_key}

pub record Json (J : Type 0) : Type 0 where
  pub string : Text → J
  pub number : ℤ → J
  pub object : Map Text J → J
  -- `req[it.key()] = it.value()` for each entry of a payload that is not null.
  pub merged : Map Text J → J → J
  -- `j.value(key, default)` for a default of type string; nothing when it throws a type_error.
  pub value : J → Text → Text → Option Text
  pub value-object :
      (entries : Map Text J) (key default t : Text)
      → lookup key entries ≡ some (string t)
      → value (object entries) key default ≡ some t

-- What the handlers of the server use besides: texts of values, and numbers.
pub record Codec (J : Type 0) : Type 0 where
  pub json : Json J
  pub boolean : Bool → J
  pub dump : J → Text
  pub parse : Text → Option J  -- nothing for a parse_error
  -- `j.value(key, default)` for a default of type int; nothing when it throws a type_error.
  pub int_value : J → Text → ℤ → Option ℤ
  pub parse-dump : (j : J) → parse (dump j) ≡ some j
  pub int_value-object :
      (entries : Map Text J) (key : Text) (default n : ℤ)
      → lookup key entries ≡ some (json.number n)
      → int_value (json.object entries) key default ≡ some n
