-- ===== src/Sensors/Processor.antt =====
-- sensor/processor.py: `FrameProcessor`.
use oig_proxy.Common.{
  ℕ, Bool, not, ◌&&◌, ◌||◌, none, some, List, [], ◌∷◌, ◌++◌, Text, codes, ◌==◌, text_eq, pair_eq,
  if◌then◌else◌,
}
use oig_proxy.Common.Dict
use oig_proxy.Common.Dict.{Dict}
use oig_proxy.Common.Decimal.{ℤ, pos, lt_int}
use oig_proxy.Values.{Floats, Value}
use oig_proxy.Server.Frames.{is_in}
use oig_proxy.Mqtt.{Answer, MqttClient, publish_state}
use oig_proxy.Mqtt.Discovery.{send_discovery}
use oig_proxy.Sensors.{Metadata, SensorMap, lookup, iter_sensors}
use oig_proxy.Sensors.Fields.{
  isnew_tables, actual_table, merge, get_or, entity_of, Python, number_of, deduped,
  is_transport_metadata_frame, is_skipped, read_fields, public_only, mirror_payloads,
}

-- What the processor keeps beside the client and the map.
pub record FrameProcessor (F : Type 0) : Type 0 where
  pub proxy_device_id : Text
  pub sensors : SensorMap (Value F)
  pub missing_map_logged : List Text
  pub battery_bank_count_by_device : Dict Text ℤ
  pub last_table_values : Dict (Text × Text) (Dict Text (Value F))

-- The processor and the client.
abbrev pub Both : Type 0 → Type 0 → Type 0
Both F C = FrameProcessor F × MqttClient F C

module _ (fl : Floats) (py : Python fl.Float) where
  open fl use {Float, to_int}
  open py use {show_list, iso_of, same, int_of}

  unfoldable pub battery_bank_count : FrameProcessor Float → (device_id : Text) → ℤ
  unfolding Dict.get
  battery_bank_count p device_id =
      get_or (pos 1) (Dict.get device_id p.battery_bank_count_by_device)

  unfoldable pub table_enabled_for_device : FrameProcessor Float → (device_id table : Text) → Bool
  unfolding battery_bank_count
  table_enabled_for_device p device_id table =
      not (table == codes "tbl_batt_prm2" && lt_int (battery_bank_count p device_id) (pos 2))

  unfoldable pub target_device_id : FrameProcessor Float → (device_id table : Text) → Text
  target_device_id p device_id table =
      if table == codes "tbl_events" || table == codes "proxy_status" || table == codes "twin_state"
      then p.proxy_device_id
      else device_id

  -- the number of batteries, which a frame of their settings tells
  unfoldable pub observe_banks :
      (device_id table : Text)
      → Dict Text (Value Float)
      → FrameProcessor Float
      → FrameProcessor Float
  unfolding Dict.get Dict.put number_of
  observe_banks device_id table fields p =
      if not (table == codes "tbl_batt_prms") then p else elim (Dict.get (codes "BAT_N") fields) [
        | none ↦ p
        | some v ↦ elim (number_of fl py v) [
          | none ↦ p
          | some n ↦ record p {
            battery_bank_count_by_device = Dict.put device_id n p.battery_bank_count_by_device;
          }
        ]
      ]

  module _ {C : Type 0} (answers : ℕ → Answer) where
    -- the discovery of a field, or the note that the map does not have it
    unfoldable pub discover_field : (target table key : Text) → Both Float C → Both Float C
    unfolding lookup entity_of
    discover_field target table key (p, c) = elim (lookup p.sensors table key) [
      | none ↦
          let miss = table ++ (codes ":" ++ key) in
          if is_in p.missing_map_logged miss
          then (p, c)
          else (record p { missing_map_logged = miss ∷ p.missing_map_logged }, c)
      | some m ↦ (p, (send_discovery int_of answers (entity_of target table key m) c).0)
    ]

    unfoldable pub discover_fields :
        (target table : Text)
        → (transport : Bool) → Dict Text (Value Float)
        → Both Float C
        → Both Float C
    discover_fields target table transport [] s = s
    discover_fields target table transport ((key, value) ∷ fields) s =
        discover_fields target table transport fields
          (if is_skipped fl py transport key then s else discover_field target table key s)

    -- the values of a table join those that it had, and all are published
    unfoldable pub publish_values :
        (device_id target table : Text) → Dict Text (Value Float) → Both Float C → Both Float C
    unfolding Dict.get Dict.put public_only
    publish_values device_id target table new (p, c) =
        let merged = merge (get_or [] (Dict.get (device_id, table) p.last_table_values)) new in
        (
          record p {
            last_table_values =
                Dict.put (device_id, table) (public_only fl py merged) p.last_table_values;
          },
          (publish_state answers target table merged c).0,
        )

    unfoldable pub publish_mirrors :
        (device_id target : Text)
        → Dict Text (Dict Text (Value Float))
        → Both Float C
        → Both Float C
    publish_mirrors device_id target [] s = s
    publish_mirrors device_id target ((table, fields) ∷ mirrors) s =
        publish_mirrors device_id target mirrors (publish_values device_id target table fields s)

    -- the end of `process`
    unfoldable pub publish_all :
        (device_id target table : Text) → Dict Text (Value Float) → Both Float C → Both Float C
    unfolding mirror_payloads Dict.get
    publish_all device_id target table new (p, c) =
        let merged = merge (get_or [] (Dict.get (device_id, table) p.last_table_values)) new in
        let s = publish_values device_id target table new (p, c) in
        if table == codes "tbl_actual"
        then publish_mirrors device_id target (mirror_payloads fl py p.sensors [] merged) s
        else s

    -- from the fields on
    unfoldable pub process_fields :
        (device_id table : Text) → Dict Text (Value Float) → Both Float C → Both Float C
    process_fields device_id table fields (p, c) =
        let target = target_device_id p device_id table in
        let transport = is_transport_metadata_frame fl py fields in
        let new = read_fields fl py p.sensors table transport [] fields in
        let s = discover_fields target table transport fields (p, c) in
        elim new [ [] ↦ s | e ∷ es ↦ publish_all device_id target table (e ∷ es) s ]

    -- the second battery publishes what differs from the first
    unfoldable pub process_second :
        (device_id table : Text) → Dict Text (Value Float) → Both Float C → Both Float C
    unfolding deduped Dict.get
    process_second device_id table fields (p, c) =
        let first = get_or [] (Dict.get (device_id, codes "tbl_batt_prm1") p.last_table_values) in
        elim (deduped fl py first fields) [
          | [] ↦ (p, c)
          | e ∷ es ↦ process_fields device_id table (e ∷ es) (p, c)
        ]

    unfoldable pub process :
        (device_id table : Text) → Dict Text (Value Float) → Both Float C → Both Float C
    process device_id table0 [] s = s
    process device_id table0 (e ∷ es) (p, c) =
        let table = actual_table table0 in
        let p1 = observe_banks device_id table (e ∷ es) p in
        if not (table_enabled_for_device p1 device_id table)
        then (p1, c)
        else if table == codes "tbl_batt_prm2"
        then process_second device_id table (e ∷ es) (p1, c)
        else process_fields device_id table (e ∷ es) (p1, c)

    -- the loop of `publish_all_discovery`
    unfoldable pub publish_discoveries :
        (device_id : Text)
        → List (Text × Text × Metadata (Value Float))
        → Both Float C
        → Both Float C
    unfolding entity_of
    publish_discoveries device_id [] s = s
    publish_discoveries device_id ((table, key, m) ∷ sensors) (p, c) =
        let target = target_device_id p device_id table in
        let c' = (send_discovery int_of answers (entity_of target table key m) c).0 in
        let left_out =
          is_in isnew_tables table
          || table == codes "proxy_control"
          || not (table_enabled_for_device p device_id table) in
        publish_discoveries device_id sensors (p, if left_out then c else c')

    unfoldable pub publish_all_discovery : (device_id : Text) → Both Float C → Both Float C
    unfolding iter_sensors
    publish_all_discovery device_id (p, c) =
        publish_discoveries device_id (iter_sensors p.sensors) (p, c)
