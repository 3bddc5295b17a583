-- ===== src/Json.antt =====
-- The JSON library that both ends of a short connection use, as a parameter.
use network_disk_server.Base.{Bool, Option}
use network_disk_server.Base.Int.{ℤ}
use network_disk_server.Base.Text.{Bytes}

-- `none` is an exception (`Json::LogicError`), which the program catches nowhere.
pub record Json : Type 1 where
  pub Value : Type 0
  -- Reader::parse(text, root): whether it succeeds, and the root after it
  pub parse : Bytes → Bool × Value
  -- the default value, a text, a number
  pub null : Value
  pub text : Bytes → Value
  pub number : ℤ → Value
  -- value[key], with the value after it, which has a null member if it had none; value[key] = v
  pub member : Value → Bytes → Option (Value × Value)
  pub set_member : Value → Bytes → Value → Option Value
  pub as_int : Value → Option ℤ
  pub as_string : Value → Option Bytes
  pub to_styled : Value → Bytes
