-- ===== src/Mqtt/Entities.antt =====
-- mqtt/client.py: the entities of Home Assistant that `send_discovery` describes. The templates of
-- values and commands are texts in a language of Home Assistant; the model keeps what is put in.
use oig_proxy.Common.{
  ℕ, Bool, true, false, not, ◌&&◌, ◌||◌, Option, none, some, List, [], ◌∷◌, ◌++◌, map, ltb, nat_beq,
  leb, Text, codes, ◌==◌, text_eq, lower, is_digit, if◌then◌else◌,
}
use oig_proxy.Common.Dict
use oig_proxy.Common.Dict.{Dict}
use oig_proxy.Common.Decimal.{ℤ, lt_int}
use oig_proxy.Constraints.{SettingConstraint}

-- The arguments of `send_discovery`; no text and no map are empty.
pub record Entity : Type 0 where
  pub device_id : Text
  pub table : Text
  pub sensor_key : Text
  pub sensor_name : Text
  pub unit : Text
  pub device_class : Text
  pub state_class : Text
  pub icon : Text
  pub device_mapping : Text
  pub entity_category : Text
  pub is_binary : Bool
  pub enum_map : Dict Text Text

-- What a template shows of the value: itself, the label of its raw value, or the label by the
-- ordered items of a select, with the raw value for a label as the command.
pub data Template : Type 0 where
  plain : Text → Template
  labelled selected : Text → Dict Text Text → Template

pub record DeviceInfo : Type 0 where
  pub identifier : Text
  pub label : Text
  pub owner : Text
  pub via_device : Option Text

pub record SensorConfig : Type 0 where
  pub name : Text
  pub object_id : Text
  pub default_entity_id : Text
  pub unique_id : Text
  pub state_topic : Text
  pub template : Template
  pub availability : Text
  pub device : DeviceInfo
  pub unit_of_measurement : Option Text
  pub device_class : Option Text
  pub state_class : Option Text
  pub icon : Option Text
  pub entity_category : Option Text
  pub has_payloads : Bool

pub data ControlKind : Type 0 where
  number : (unit device_class : Option Text) → (min_value max_value step : Option ℕ) → ControlKind
  switch : ControlKind
  select : (options : List Text) → Template → ControlKind

pub record ControlConfig : Type 0 where
  pub name : Text
  pub object_id : Text
  pub default_entity_id : Text
  pub unique_id : Text
  pub state_topic : Text
  pub template : Template
  pub command_topic : Text
  pub availability : Text
  pub device : DeviceInfo
  pub kind : ControlKind

-- `if unit:`
abbrev pub unless_empty : Text → Option Text
unless_empty [] = none
unless_empty (c ∷ s) = some (c ∷ s)

abbrev pub device_names : Dict Text Text
device_names =
    (codes "inverter", codes "Střídač")
    ∷ (codes "battery", codes "Baterie")
    ∷ (codes "boiler", codes "Bojler")
    ∷ (codes "recuper", codes "Rekuperace")
    ∷ (codes "heat_pump", codes "Tepelné čerpadlo")
    ∷ (codes "aircon", codes "Klimatizace")
    ∷ (codes "wl_charge", codes "Wallbox")
    ∷ (codes "box", codes "OIG Box")
    ∷ (codes "pv", codes "FVE")
    ∷ (codes "grid", codes "Síť")
    ∷ (codes "load", codes "Spotřeba")
    ∷ (codes "proxy", codes "Diagnostika OIG")
    ∷ []

unfoldable pub device_label : Text → Text
unfolding Dict.get
device_label mapped = elim (Dict.get mapped device_names) [
  | some label ↦ label
  | none ↦ codes "Střídač"
]

-- `re.sub("[...]+", "_", s)`; the flag tells that the code point before is one of a run.
unfoldable pub sub_runs : (ℕ → Bool) → Bool → Text → Text
sub_runs p inside [] = []
sub_runs p inside (c ∷ s) =
    let rest = sub_runs p (p c) s in
    if not (p c) then c ∷ rest else if inside then rest else b'_' ∷ rest

abbrev pub is_slug : ℕ → Bool
is_slug c = leb b'a' c && leb c b'z' || is_digit c || nat_beq c b'_'

abbrev is_underscore : ℕ → Bool
is_underscore c = nat_beq c b'_'

abbrev drop_leading : Text → Text
drop_leading [] = []
drop_leading (c ∷ s) = if nat_beq c b'_' then drop_leading s else c ∷ s

abbrev drop_trailing : Text → Text
drop_trailing [] = []
drop_trailing (c ∷ s) =
    let rest = drop_trailing s in
    elim rest [ [] ↦ if nat_beq c b'_' then [] else c ∷ [] | d ∷ r ↦ c ∷ d ∷ r ]

unfoldable pub build_object_id : (device_id table safe_key : Text) → (is_control : Bool) → Text
unfolding lower sub_runs
build_object_id device_id table safe_key is_control =
    let base =
      lower
        (codes "oig_local_" ++ (device_id ++ (codes "_" ++ (table ++ (codes "_" ++ safe_key))))) in
    let runs = sub_runs is_underscore false (sub_runs (λ c. not (is_slug c)) false base) in
    let base' = drop_trailing (drop_leading runs) in
    if is_control then base' ++ codes "_cfg" else base'

unfoldable pub is_binary_control_constraint : Option SettingConstraint → Bool
is_binary_control_constraint none = false
is_binary_control_constraint (some c) =
    c.integer_only
    && elim c.min_value [ none ↦ false | some n ↦ nat_beq n 0 ]
    && elim c.max_value [ none ↦ false | some n ↦ nat_beq n 1 ]
    && elim c.step [ none ↦ true | some n ↦ nat_beq n 1 ]

unfoldable pub is_select_control : (table sensor_key : Text) → Dict Text Text → Bool
is_select_control table sensor_key [] = false
is_select_control table sensor_key (item ∷ items) =
    table == codes "proxy_control" && sensor_key == codes "PROXY_MODE"
    || table == codes "tbl_box_prms" && sensor_key == codes "MODE"

-- The order of texts by their code points.
abbrev text_lt : Text → Text → Bool
text_lt [] [] = false
text_lt [] (d ∷ t) = true
text_lt (c ∷ s) [] = false
text_lt (c ∷ s) (d ∷ t) = let rest = text_lt s t in if nat_beq c d then rest else ltb c d

-- `sorted`, which keeps the order of items with the same key.
insert_by : {A K : Type 0} → (K → K → Bool) → K → A → List (K × A) → List (K × A)
insert_by lt k a [] = (k, a) ∷ []
insert_by lt k a ((j, b) ∷ items) =
    let rest = insert_by lt k a items in if lt j k then (j, b) ∷ rest else (k, a) ∷ (j, b) ∷ items

sort_by : {A K : Type 0} → (K → K → Bool) → List (K × A) → List (K × A)
unfolding insert_by
sort_by lt [] = []
sort_by lt ((k, a) ∷ items) = insert_by lt k a (sort_by lt items)

module _ (int_of : Text → Option ℤ) where
  -- the items with `int(item[0])`, where none stands for the error of one of them
  numbered : Dict Text Text → Option (List (ℤ × (Text × Text)))
  numbered [] = some []
  numbered ((raw, label) ∷ items) =
      let rest = numbered items in
      elim (int_of raw) [
        | none ↦ none
        | some n ↦ elim rest [ none ↦ none | some r ↦ some ((n, (raw, label)) ∷ r) ]
      ]

  unfoldable pub ordered_enum_items : Dict Text Text → Dict Text Text
  unfolding numbered sort_by
  ordered_enum_items items = elim (numbered items) [
    | some keyed ↦ map (λ (e : ℤ × (Text × Text)). e.1) (sort_by lt_int keyed)
    | none ↦
        map (λ (e : Text × (Text × Text)). e.1)
          (sort_by text_lt (map (λ (e : Text × Text). (e.0, e)) items))
  ]
