-- ===== src/Sensors.antt =====
-- sensor/loader.py and sensor/warnings.py: the map of the sensors, and the warnings in a number.
pub mod Fields
pub mod Processor
pub mod Merging
use oig_proxy.Common.{
  ℕ, ◌+◌, ◌/◌, ◌%◌, ◌^◌, Bool, true, false, not, ◌&&◌, ◌||◌, Option, none, some, List, [], ◌∷◌,
  ◌++◌, any, nat_beq, Text, codes, ◌==◌, text_eq, if◌then◌else◌, length,
}
use oig_proxy.Common.Dict
use oig_proxy.Common.Dict.{Dict}
use oig_proxy.Common.Decimal.{ℤ, pos, negsuc}

-- An entry of `warnings_3f`; a field that is missing is `None`.
pub record Warning (V : Type 0) : Type 0 where
  pub bit : Option ℕ
  pub key : Option Text
  pub warning_code : Option V
  pub remark : Text
  pub remark_cs : Text

-- An entry of the map; a text that is missing is empty.
pub record Metadata (V : Type 0) : Type 0 where
  pub name_cs : Text
  pub name : Text
  pub unit_of_measurement : Text
  pub device_class : Text
  pub state_class : Text
  pub is_binary : Bool
  pub entity_category : Text
  pub device_mapping : Text
  pub enum_map : Dict Text Text
  pub warnings_3f : List (Warning V)

-- `_data["sensors"]`, by `table:key`
abbrev pub SensorMap : Type 0 → Type 0
SensorMap V = Dict Text (Metadata V)

unfoldable pub lookup : {V : Type 0} → SensorMap V → (table key : Text) → Option (Metadata V)
unfolding Dict.get
lookup sensors table key = Dict.get (table ++ (codes ":" ++ key)) sensors

unfoldable pub sensor_count : {V : Type 0} → SensorMap V → ℕ
sensor_count sensors = length sensors

-- `lookup_key.split(":", 1)`, where there is a colon
unfoldable pub split_first : Text → Option (Text × Text)
split_first [] = none
split_first (c ∷ s) =
    let rest = split_first s in
    if nat_beq c b':'
    then some ([], s)
    else elim rest [ none ↦ none | some (t, k) ↦ some (c ∷ t, k) ]

unfoldable pub iter_sensors : {V : Type 0} → SensorMap V → List (Text × Text × Metadata V)
unfolding split_first
iter_sensors [] = []
iter_sensors ((lookup_key, metadata) ∷ sensors) =
    let rest = iter_sensors sensors in
    elim (split_first lookup_key) [
      | none ↦ rest
      | some (table, key) ↦ if table == [] || key == [] then rest else (table, key, metadata) ∷ rest
    ]

-- `field_value & (1 << bit)`; a negative number is in two's complement.
unfoldable pub bit_is_set : ℤ → ℕ → Bool
bit_is_set (pos n) bit = nat_beq (n / 2 ^ bit % 2) 1
bit_is_set (negsuc n) bit = nat_beq (n / 2 ^ bit % 2) 0

-- the entry names a bit that is set, and a key
unfoldable pub warning_key : {V : Type 0} → ℤ → Warning V → Option Text
unfolding bit_is_set
warning_key field_value w = elim w.bit [
  | none ↦ none
  | some bit ↦ elim w.key [
    | none ↦ none
    | some key ↦ if bit_is_set field_value bit then some key else none
  ]
]

unfoldable pub decode_warnings : {V : Type 0} → ℤ → List (Warning V) → List Text
unfolding warning_key
decode_warnings field_value [] = []
decode_warnings field_value (w ∷ ws) =
    let rest = decode_warnings field_value ws in
    elim (warning_key field_value w) [ none ↦ rest | some key ↦ key ∷ rest ]

unfoldable pub decode_warning_details :
    {V : Type 0} → ℤ → List (Warning V) → List (Text × Warning V)
unfolding warning_key
decode_warning_details field_value [] = []
decode_warning_details field_value (w ∷ ws) =
    let rest = decode_warning_details field_value ws in
    elim (warning_key field_value w) [ none ↦ rest | some key ↦ (key, w) ∷ rest ]
