-- ===== src/Sensors/Fields.antt =====
-- sensor/processor.py: what the fields of a frame publish.
use oig_proxy.Common.{
  Bool, false, not, ◌&&◌, ◌||◌, Option, none, some, List, [], ◌∷◌, ◌++◌, map, any, Text, codes,
  ◌==◌, text_eq, pair_eq, if◌then◌else◌,
}
use oig_proxy.Common.Dict
use oig_proxy.Common.Dict.{Dict}
use oig_proxy.Common.Decimal.{ℤ, pos}
use oig_proxy.Values.{Floats, Value, null, bool, int, float, str, other}
use oig_proxy.Frame.LocalAck.{starts_with}
use oig_proxy.Server.Frames.{
  transport_result_values, poll_result_values, transport_metadata_keys, setting_metadata_keys,
  is_in, is_public, keys, text_or_empty,
}
use oig_proxy.Mqtt.Entities.{Entity}
use oig_proxy.Sensors.{
  Warning, Metadata, SensorMap, lookup, iter_sensors, decode_warnings, decode_warning_details,
}

abbrev pub isnew_tables : List Text
isnew_tables = codes "IsNewFW" ∷ codes "IsNewSet" ∷ codes "IsNewWeather" ∷ []

unfoldable pub actual_table : Text → Text
unfolding is_in
actual_table table = if is_in isnew_tables table then codes "tbl_actual" else table

abbrev priority : List Text
priority =
    codes "tbl_dc_in"
    ∷ codes "tbl_ac_in"
    ∷ codes "tbl_ac_out"
    ∷ codes "tbl_batt"
    ∷ codes "tbl_batt_prms"
    ∷ codes "tbl_box"
    ∷ codes "tbl_box_prms"
    ∷ codes "tbl_invertor_prms"
    ∷ codes "tbl_invertor_prm1"
    ∷ codes "tbl_invertor_prm2"
    ∷ codes "tbl_boiler"
    ∷ codes "tbl_boiler_prms"
    ∷ codes "tbl_h_pump_prms"
    ∷ codes "tbl_aircon_prms"
    ∷ codes "tbl_wl_charge_prms"
    ∷ codes "tbl_recuper_prms"
    ∷ []

-- The map names the key in the table, which is one of the box.
abbrev is_mirror : {V : Type 0} → List (Text × Text × V) → (key table : Text) → Bool
is_mirror sensors key table =
    not (table == codes "tbl_actual")
    && starts_with (codes "tbl_") table
    && any (λ s. s.0 == table && s.1 == key) sensors

first_mirror : {V : Type 0} → List (Text × Text × V) → (key : Text) → List Text → Option Text
unfolding starts_with
first_mirror sensors key [] = none
first_mirror sensors key (table ∷ tables) =
    let rest = first_mirror sensors key tables in
    if is_mirror sensors key table then some table else rest

-- `_actual_mirror_targets.get(key)`, which is computed from the map at the start
unfoldable pub mirror_target : {V : Type 0} → SensorMap V → (key : Text) → Option Text
unfolding first_mirror iter_sensors
mirror_target sensors key = first_mirror (iter_sensors sensors) key priority

-- `{**prev, **new}`
unfoldable pub merge : {V : Type 0} → Dict Text V → Dict Text V → Dict Text V
unfolding Dict.put
merge prev [] = prev
merge prev ((k, v) ∷ new) = merge (Dict.put k v prev) new

abbrev pub get_or : {V : Type 0} → V → Option V → V
get_or d none = d
get_or d (some v) = v

ends_with : Text → Text → Bool
ends_with suffix [] = suffix == []
ends_with suffix (c ∷ s) = suffix == (c ∷ s) || ends_with suffix s

unfoldable pub is_derived : (key : Text) → Bool
unfolding ends_with
is_derived key =
    ends_with (codes "_warnings") key
    || ends_with (codes "_warnings_cs") key
    || ends_with (codes "_warning_codes") key

abbrev or_else : Text → Text → Text
or_else [] t = t
or_else (c ∷ s) t = c ∷ s

-- The arguments of the discovery of a sensor.
unfoldable pub entity_of : {V : Type 0} → (device_id table key : Text) → Metadata V → Entity
entity_of device_id table key m = record {
  device_id = device_id;
  table = table;
  sensor_key = key;
  sensor_name = or_else m.name_cs (or_else m.name key);
  unit = m.unit_of_measurement;
  device_class = m.device_class;
  state_class = m.state_class;
  icon = [];
  device_mapping = m.device_mapping;
  entity_category = m.entity_category;
  is_binary = m.is_binary;
  enum_map = m.enum_map;
}

-- The parts of Python that the processor calls: `str` of a list, the ISO form of a time in the
-- format of the box, and `==`.
pub record Python (F : Type 0) : Type 0 where
  pub show_list : List (Value F) → Text
  pub iso_of : Text → Option Text
  pub same : Value F → Value F → Bool
  pub int_of : Text → Option ℤ

module _ (fl : Floats) (py : Python fl.Float) where
  open fl use {Float, to_int}
  open py use {show_list, iso_of, same, int_of}

  -- `isinstance(value, (int, float))` and `int(value)`
  unfoldable pub number_of : Value Float → Option ℤ
  number_of (bool b) = some (if b then pos 1 else pos 0)
  number_of (int n) = some n
  number_of (float x) = some (to_int x)
  number_of null = none
  number_of (str s) = none
  number_of (other s) = none

  -- `isinstance(value, int)`
  integer_of : Value Float → Option ℤ
  integer_of (bool b) = some (if b then pos 1 else pos 0)
  integer_of (int n) = some n
  integer_of (float x) = none
  integer_of null = none
  integer_of (str s) = none
  integer_of (other s) = none

  -- the fields of the second battery that differ from those of the first
  unfoldable pub deduped :
      Dict Text (Value Float) → Dict Text (Value Float) → Dict Text (Value Float)
  unfolding Dict.get is_public
  deduped prm1 [] = []
  deduped prm1 ((key, value) ∷ fields) =
      let rest = deduped prm1 fields in
      let equal : Bool = elim (Dict.get key prm1) [ none ↦ false | some v ↦ same v value ] in
      if not (is_public key) || equal then rest else (key, value) ∷ rest

  unfoldable pub is_transport_metadata_frame : Dict Text (Value Float) → Bool
  unfolding Dict.get text_or_empty is_in keys
  is_transport_metadata_frame fields =
      let result = text_or_empty fl (Dict.get (codes "Result") fields) in
      let names = keys fields in
      is_in transport_result_values result
      || is_in poll_result_values result
      || is_in names (codes "TblItem")
        && is_in names (codes "NewValue")
        && any (is_in names) setting_metadata_keys

  remark_of : Text × Warning (Value Float) → Value Float
  remark_of (key, w) = str (or_else w.remark_cs (or_else w.remark key))

  codes_of : List (Text × Warning (Value Float)) → List (Value Float)
  codes_of [] = []
  codes_of ((key, w) ∷ details) =
      let rest = codes_of details in elim w.warning_code [ none ↦ rest | some code ↦ code ∷ rest ]

  -- the keys that the warnings of a number add
  unfoldable pub warned : (key : Text) → ℤ → List (Warning (Value Float)) → Dict Text (Value Float)
  unfolding remark_of codes_of
  warned key n ws =
      let details = decode_warning_details n ws in
      elim (decode_warnings n ws) [
        | [] ↦ []
        | name ∷ names ↦
            (key ++ codes "_warnings", other (show_list (map (λ s. str s) (name ∷ names))))
            ∷ (
              key ++ codes "_warnings_cs",
              other (show_list (map (λ (d : Text × Warning (Value Float)). remark_of d) details)),
            )
            ∷ elim (codes_of details) [
              | [] ↦ []
              | code ∷ others ↦
                  (key ++ codes "_warning_codes", other (show_list (code ∷ others))) ∷ []
            ]
      ]

  -- the value that is published: a timestamp in its ISO form
  converted : Metadata (Value Float) → Value Float → Value Float
  converted m (str s) =
      if m.device_class == codes "timestamp"
      then elim (iso_of s) [ none ↦ str s | some t ↦ str t ]
      else str s
  converted m v = v

  -- what a field with metadata publishes
  unfoldable pub read_field :
      (key : Text) → Value Float → Metadata (Value Float) → Dict Text (Value Float)
  unfolding converted integer_of
  read_field key value m =
      (key, converted m value)
      ∷ elim (integer_of value) [ none ↦ [] | some n ↦ warned key n m.warnings_3f ]

  -- the key is left out
  unfoldable pub is_skipped : (transport : Bool) → (key : Text) → Bool
  unfolding is_public is_in
  is_skipped transport key = not (is_public key) || transport && is_in transport_metadata_keys key

  -- `pub_data`
  unfoldable pub read_fields :
      SensorMap (Value Float)
      → (table : Text) → (transport : Bool) → (out : Dict Text (Value Float))
      → Dict Text (Value Float)
      → Dict Text (Value Float)
  unfolding Dict.put lookup
  read_fields sensors table transport out [] = out
  read_fields sensors table transport out ((key, value) ∷ fields) =
      let out' : Dict Text (Value Float) = elim (lookup sensors table key) [
        | none ↦ Dict.put key value out
        | some m ↦ merge out (read_field key value m)
      ] in
      read_fields sensors table transport (if is_skipped transport key then out else out') fields

  unfoldable pub public_only : Dict Text (Value Float) → Dict Text (Value Float)
  unfolding is_public
  public_only [] = []
  public_only ((k, v) ∷ fields) =
      let rest = public_only fields in if is_public k then (k, v) ∷ rest else rest

  -- `mirror_payloads`, from the keys of the values in their order
  unfoldable pub mirror_payloads :
      SensorMap (Value Float)
      → Dict Text (Dict Text (Value Float))
      → Dict Text (Value Float)
      → Dict Text (Dict Text (Value Float))
  unfolding Dict.get Dict.put is_derived mirror_target lookup
  mirror_payloads sensors out [] = out
  mirror_payloads sensors out ((key, value) ∷ fields) =
      let out' : Dict Text (Dict Text (Value Float)) = elim (mirror_target sensors key) [
        | none ↦ out
        | some table ↦ elim (lookup sensors table key) [
          | none ↦ out
          | some m ↦ Dict.put table (Dict.put key value (get_or [] (Dict.get table out))) out
        ]
      ] in
      mirror_payloads sensors (if is_derived key then out else out') fields
