-- ===== src/Constraints.antt =====
-- settings_constraints.py: which settings may be written, and within which bounds.
pub mod Bounds
use oig_proxy.Common.{
  ℕ, Bool, true, false, not, ◌&&◌, ◌||◌, Option, none, some, List, [], ◌∷◌, any, Text, codes, ◌==◌,
  text_eq, pair_eq, strip, lower, if◌then◌else◌,
}
use oig_proxy.Common.Dict
use oig_proxy.Common.Dict.{Dict}
use oig_proxy.Common.Decimal.{ℤ, pos}
use oig_proxy.Values.{Floats, Value, null, bool, int, float, str, other}

-- The texts of one table's writable keys.
abbrev pub control_write_whitelist : Dict Text (List Text)
control_write_whitelist =
    (codes "proxy_control", codes "PROXY_MODE" ∷ [])
    ∷ (
      codes "tbl_batt_prms",
      codes "FMT_ON" ∷ codes "BAT_MIN" ∷ codes "BAT_GL_MIN" ∷ codes "BAT_AG_MIN" ∷ [],
    )
    ∷ (
      codes "tbl_boiler_prms",
      codes "ISON"
          ∷ codes "MANUAL"
          ∷ codes "SSR0"
          ∷ codes "SSR1"
          ∷ codes "SSR2"
          ∷ codes "PRRTY"
          ∷ codes "P_SET"
          ∷ codes "WD"
          ∷ codes "ZONE1_S"
          ∷ codes "ZONE1_E"
          ∷ codes "ZONE2_S"
          ∷ codes "ZONE2_E"
          ∷ codes "ZONE3_S"
          ∷ codes "ZONE3_E"
          ∷ codes "ZONE4_S"
          ∷ codes "ZONE4_E"
          ∷ [],
    )
    ∷ (
      codes "tbl_box_prms",
      codes "MODE" ∷ codes "BAT_AC" ∷ codes "BAT_FORMAT" ∷ codes "SA" ∷ codes "RQRESET" ∷ [],
    )
    ∷ (codes "tbl_invertor_prm1", codes "BUZ_MUT" ∷ codes "GEN_AC_SRC" ∷ [])
    ∷ []

-- Every bound in the source is a natural number; `step` is not read by the validation.
pub record SettingConstraint : Type 0 where
  pub min_value : Option ℕ
  pub max_value : Option ℕ
  pub step : Option ℕ
  pub integer_only : Bool

abbrev ints : ℕ → ℕ → ℕ → SettingConstraint
ints lo hi step = record {
  min_value = some lo;
  max_value = some hi;
  step = some step;
  integer_only = true;
}

abbrev pub setting_constraints : Dict (Text × Text) SettingConstraint
setting_constraints =
    ((codes "proxy_control", codes "PROXY_MODE"), ints 0 2 1)
    ∷ ((codes "tbl_batt_prms", codes "FMT_ON"), ints 0 1 1)
    ∷ ((codes "tbl_batt_prms", codes "BAT_MIN"), ints 20 100 1)
    ∷ ((codes "tbl_batt_prms", codes "BAT_GL_MIN"), ints 0 100 1)
    ∷ ((codes "tbl_batt_prms", codes "BAT_AG_MIN"), ints 0 100 1)
    ∷ ((codes "tbl_box_prms", codes "MODE"), ints 0 5 1)
    ∷ ((codes "tbl_box_prms", codes "BAT_AC"), ints 0 100 1)
    ∷ ((codes "tbl_box_prms", codes "BAT_FORMAT"), ints 0 1 1)
    ∷ ((codes "tbl_box_prms", codes "SA"), ints 0 1 1)
    ∷ ((codes "tbl_box_prms", codes "RQRESET"), ints 0 1 1)
    ∷ ((codes "tbl_boiler_prms", codes "ISON"), ints 0 1 1)
    ∷ ((codes "tbl_boiler_prms", codes "MANUAL"), ints 0 1 1)
    ∷ ((codes "tbl_boiler_prms", codes "SSR0"), ints 0 1 1)
    ∷ ((codes "tbl_boiler_prms", codes "SSR1"), ints 0 1 1)
    ∷ ((codes "tbl_boiler_prms", codes "SSR2"), ints 0 1 1)
    ∷ ((codes "tbl_boiler_prms", codes "PRRTY"), ints 0 2 1)
    ∷ ((codes "tbl_boiler_prms", codes "P_SET"), ints 0 10000 100)
    ∷ ((codes "tbl_boiler_prms", codes "WD"), ints 0 500000 100)
    ∷ ((codes "tbl_boiler_prms", codes "ZONE1_S"), ints 0 86399 60)
    ∷ ((codes "tbl_boiler_prms", codes "ZONE1_E"), ints 0 86399 60)
    ∷ ((codes "tbl_boiler_prms", codes "ZONE2_S"), ints 0 86399 60)
    ∷ ((codes "tbl_boiler_prms", codes "ZONE2_E"), ints 0 86399 60)
    ∷ ((codes "tbl_boiler_prms", codes "ZONE3_S"), ints 0 86399 60)
    ∷ ((codes "tbl_boiler_prms", codes "ZONE3_E"), ints 0 86399 60)
    ∷ ((codes "tbl_boiler_prms", codes "ZONE4_S"), ints 0 86399 60)
    ∷ ((codes "tbl_boiler_prms", codes "ZONE4_E"), ints 0 86399 60)
    ∷ ((codes "tbl_invertor_prm1", codes "BUZ_MUT"), ints 0 1 1)
    ∷ ((codes "tbl_invertor_prm1", codes "GEN_AC_SRC"), ints 0 1 1)
    ∷ []

unfoldable pub is_setting_allowed : Text → Text → Bool
unfolding Dict.get
is_setting_allowed table key = elim (Dict.get table control_write_whitelist) [
  | none ↦ false
  | some keys ↦ any (λ k. k == key) keys
]

-- The reasons for which a value is refused.
pub data Reason : Type 0 where
  not_numeric not_integer : Reason
  below_min above_max : ℕ → Reason

module _ (fl : Floats) where
  open fl use {Float, of_int, parse, is_integer, to_int, below, above}

  parse_text : Text → Option Float
  unfolding strip lower
  parse_text s =
      let raw = strip s in
      let lowered = lower raw in
      if raw == codes ""
      then none
      else if lowered == codes "on" || lowered == codes "true"
      then some (of_int (pos 1))
      else if lowered == codes "off" || lowered == codes "false"
      then some (of_int (pos 0))
      else parse raw

  unfoldable pub parse_numeric : Value Float → Option Float
  unfolding parse_text
  parse_numeric (bool b) = some (of_int (if b then pos 1 else pos 0))
  parse_numeric (int n) = some (of_int n)
  parse_numeric (float x) = some x
  parse_numeric (str s) = parse_text s
  parse_numeric null = none
  parse_numeric (other s) = none

  -- An accepted value, or the reason of the refusal.
  pub data Validated : Type 0 where
    accepted : Value Float → Validated
    refused : Reason → Validated

  fails_min : Option ℕ → Float → Bool
  fails_min none x = false
  fails_min (some lo) x = below x (pos lo)

  fails_max : Option ℕ → Float → Bool
  fails_max none x = false
  fails_max (some hi) x = above x (pos hi)

  bound : Option ℕ → ℕ
  bound none = 0
  bound (some n) = n

  validate_parsed : Option SettingConstraint → Float → Validated
  unfolding fails_min fails_max bound
  validate_parsed none x = if is_integer x then accepted (int (to_int x)) else accepted (float x)
  validate_parsed (some c) x =
      if c.integer_only && not (is_integer x)
      then refused not_integer
      else if fails_min c.min_value x
      then refused (below_min (bound c.min_value))
      else if fails_max c.max_value x
      then refused (above_max (bound c.max_value))
      else if c.integer_only || is_integer x
      then accepted (int (to_int x))
      else accepted (float x)

  unfoldable pub validate_setting_value : Text → Text → Value Float → Validated
  unfolding validate_parsed parse_numeric Dict.get
  validate_setting_value table key value = elim (parse_numeric value) [
    | none ↦ refused not_numeric
    | some x ↦ validate_parsed (Dict.get (table, key) setting_constraints) x
  ]
