-- ===== src/Values.antt =====
-- The values that settings carry: Python objects from JSON, MQTT texts or frames. Floats are a
-- type that the language gives; the model takes it with the operations that the source calls.
use oig_proxy.Common.{◌≡◌, Bool, true, Option, Text, codes, if◌then◌else◌}
use oig_proxy.Common.Decimal.{ℤ, lt_int, show_int}

pub record Floats : Type 1 where
  pub Float : Type 0
  -- float(n) of an int; an int beyond the range of floats, for which Python raises, is none of
  -- the values considered
  pub of_int : ℤ → Float
  -- float(s) of a text; none stands for ValueError
  pub parse : Text → Option Float
  -- x.is_integer()
  pub is_integer : Float → Bool
  -- int(x)
  pub to_int : Float → ℤ
  -- x < n and x > n, against an int
  pub below : Float → ℤ → Bool
  pub above : Float → ℤ → Bool
  -- str(x)
  pub show : Float → Text

-- Python compares a float with an int by their exact values: an integral float compares as the
-- integer that `int` makes of it.
pub record ExactComparison (fl : Floats) : Type 0 where
  pub below_int :
      (x : fl.Float) (n : ℤ) → fl.is_integer x ≡ true → fl.below x n ≡ lt_int (fl.to_int x) n
  pub above_int :
      (x : fl.Float) (n : ℤ) → fl.is_integer x ≡ true → fl.above x n ≡ lt_int n (fl.to_int x)

-- `other` is an object of any further type, by its `str`.
pub data Value (F : Type 0) : Type 0 where
  null : Value F
  bool : Bool → Value F
  int : ℤ → Value F
  float : F → Value F
  str : Text → Value F
  other : Text → Value F

-- `_normalize_value_for_text` of telemetry/settings_audit.py.
unfoldable pub normalize_value_for_text : (fl : Floats) → Value fl.Float → Text
unfolding show_int
normalize_value_for_text fl null = codes ""
normalize_value_for_text fl (str s) = s
normalize_value_for_text fl (bool b) = if b then codes "True" else codes "False"
normalize_value_for_text fl (int n) = show_int n
normalize_value_for_text fl (float x) = fl.show x
normalize_value_for_text fl (other s) = s

-- `_detect_value_kind`
unfoldable pub detect_value_kind : {F : Type 0} → Value F → Text
detect_value_kind null = codes "null"
detect_value_kind (bool b) = codes "bool"
detect_value_kind (int n) = codes "int"
detect_value_kind (float x) = codes "float"
detect_value_kind (str s) = codes "string"
detect_value_kind (other s) = codes "string"
