-- ===== src/Sensors/Merging.antt =====
-- sensor/processor.py: the values of a table that a frame leaves.
use oig_proxy.Common.{
  ℕ, ◌≡◌, refl, sym, ap, ◌∙◌, subst, arith, inl, inr, Bool, true, false, Option, none, some, [],
  ◌∷◌, ◌++◌, Text, codes, ◌==◌, text_eq, pair_eq, text_beq_iff, Bool-cases, Option-cases,
  if◌then◌else◌,
}
use oig_proxy.Common.Dict
use oig_proxy.Common.Dict.{Dict, get-put, beq_refl}
use oig_proxy.Common.Decimal.{ℤ}
use oig_proxy.Values.{Floats, Value, int}
use oig_proxy.Server.Frames.{is_public}
use oig_proxy.Mqtt.{Answer, MqttClient}
use oig_proxy.Sensors.{SensorMap, Metadata, lookup, decode_warnings}
use oig_proxy.Sensors.Fields.{
  actual_table, merge, get_or, Python, is_transport_metadata_frame, read_fields, read_field, warned,
  is_skipped, public_only,
}
use oig_proxy.Sensors.Processor.{
  FrameProcessor, Both, target_device_id, table_enabled_for_device, observe_banks, discover_field,
  discover_fields, publish_values, publish_all, process_fields, process,
}

abbrev pub or_old : {V : Type 0} → Option V → Option V → Option V
or_old none o = o
or_old (some v) o = some v

module _ {V : Type 0} where
  -- The value under a key, in the new values or else in those before.
  get-merge :
      (j : Text) (prev new : Dict Text V)
      → Dict.get j (merge prev new) ≡ or_old (Dict.get j (merge [] new)) (Dict.get j prev)
  unfolding merge Dict.get
  get-merge j prev [] = refl
  get-merge j prev ((k, v) ∷ new) = ground (
    arith,
    get-merge j (Dict.put k v prev) new,
    get-merge j (Dict.put k v []) new,
    get-put k j v prev,
    get-put k j v [],
  )

module _ (fl : Floats) (py : Python fl.Float) where
  open fl use {Float}

  get-public_only :
      (j : Text) (fields : Dict Text (Value Float))
      → is_public j ≡ true
      → Dict.get j (public_only fl py fields) ≡ Dict.get j fields
  unfolding public_only Dict.get
  get-public_only j [] h = refl
  get-public_only j ((k, v) ∷ fields) h = elim (Bool-cases (k == j)) [
    | inl e ↦ ground (
      arith,
      e,
      get-public_only j fields h,
      subst (λ (t : Text). is_public t ≡ true) (sym ((text_beq_iff k j).0 e)) h,
    )
    | inr e ↦ ground (arith, e, get-public_only j fields h)
  ]

  abbrev pub table_values :
      FrameProcessor Float → (device_id table : Text) → Dict Text (Value Float)
  table_values p device_id table = get_or [] (Dict.get (device_id, table) p.last_table_values)

  observe_banks-values :
      (device_id table : Text) (fields : Dict Text (Value Float)) (p : FrameProcessor Float)
      → ((observe_banks fl py device_id table fields p).last_table_values ≡ p.last_table_values)
        × ((observe_banks fl py device_id table fields p).sensors ≡ p.sensors)
        × ((observe_banks fl py device_id table fields p).proxy_device_id ≡ p.proxy_device_id)
  unfolding observe_banks
  observe_banks-values device_id table fields p = ground arith

  -- What a frame publishes of a table of its own.
  abbrev pub new_values :
      FrameProcessor Float → (table : Text) → Dict Text (Value Float) → Dict Text (Value Float)
  new_values p table fields =
      merge []
        (read_fields fl py p.sensors table (is_transport_metadata_frame fl py fields) [] fields)

  key-warnings : (key : Text) → (key == (key ++ codes "_warnings")) ≡ false
  key-warnings [] = refl
  key-warnings (c ∷ key) = ground (arith, key-warnings key)

  silent_field :
      (key : Text) (n : ℤ) (m : Metadata (Value Float))
      → decode_warnings n m.warnings_3f ≡ []
      → read_field fl py key (int n) m ≡ (key, int n) ∷ []
  unfolding read_field warned
  silent_field key n m w = rw (warned, w)

  -- A number without a warning publishes nothing under the key of the warnings.
  new_values-silent :
      (table key : Text) (n : ℤ) (m : Metadata (Value Float)) (p : FrameProcessor Float)
      → lookup p.sensors table key ≡ some m
      → decode_warnings n m.warnings_3f ≡ []
      → Dict.get (key ++ codes "_warnings") (new_values p table ((key, int n) ∷ [])) ≡ none
  unfolding read_fields
  new_values-silent table key n m p l w =
      elim (Bool-cases
        (is_skipped fl py (is_transport_metadata_frame fl py ((key, int n) ∷ [])) key)) [
          | inl e ↦ rw e (unfold merge Dict.get in refl)
          | inr e ↦
              rw (e, l, silent_field key n m w)
                (unfold merge Dict.get Dict.put in rw (key-warnings key))
        ]

  module _ {C : Type 0} (answers : ℕ → Answer) where
    discover_field-values :
        (target table key : Text) (s : Both Float C)
        → (discover_field fl py answers target table key s).0.last_table_values
          ≡ s.0.last_table_values
    unfolding discover_field
    discover_field-values target table key (p, c) =
        elim (Option-cases (lookup p.sensors table key)) [
          | inr (m, e) ↦ ground (arith, e)
          | inl e ↦ ground (arith, e)
        ]

    discover_fields-values :
        (target table : Text) (transport : Bool) (fields : Dict Text (Value Float))
        (s : Both Float C)
        → (discover_fields fl py answers target table transport fields s).0.last_table_values
          ≡ s.0.last_table_values
    unfolding discover_fields
    discover_fields-values target table transport [] s = refl
    discover_fields-values target table transport ((k, v) ∷ fields) s =
        elim (Bool-cases (is_skipped fl py transport k)) [
          | inl e ↦ rw (discover_fields, e) (discover_fields-values target table transport fields s)
          | inr e ↦
              rw (discover_fields, e)
                (discover_fields-values target table transport fields
                    (discover_field fl py answers target table k s)
                  ∙ discover_field-values target table k s)
        ]

    -- `process` of a table that is none of the special ones.
    process_plain :
        (device_id table : Text) (e : Text × Value Float) (es : Dict Text (Value Float))
        (p : FrameProcessor Float) (c : MqttClient Float C)
        → actual_table table ≡ table
        → (table == codes "tbl_batt_prm2") ≡ false
        → process fl py answers device_id table (e ∷ es) (p, c)
          ≡ process_fields fl py answers device_id table
              (e ∷ es)
              (observe_banks fl py device_id table (e ∷ es) p, c)
    unfolding process table_enabled_for_device
    process_plain device_id table e es p c a b = rw (process, a, table_enabled_for_device, b)

    publish_values-get :
        (device_id target table j : Text) (new : Dict Text (Value Float)) (s : Both Float C)
        → is_public j ≡ true
        → Dict.get j (
            table_values
              (publish_values fl py answers device_id target table new s).0
              device_id
              table)
          ≡ or_old (Dict.get j (merge [] new)) (Dict.get j (table_values s.0 device_id table))
    unfolding publish_values
    publish_values-get device_id target table j new (p, c) h =
        let merged = merge (table_values p device_id table) new in
        ap (λ (o : Option (Dict Text (Value Float))). Dict.get j (get_or [] o))
          (get-put (device_id, table) (device_id, table) (public_only fl py merged)
              p.last_table_values
            ∙ ap
                (λ (b : Bool).
                  if b
                  then some (public_only fl py merged)
                  else Dict.get (device_id, table) p.last_table_values)
                (beq_refl {K = Text × Text} ⦃e = pair_eq⦄ (device_id, table)))
        ∙ get-public_only j merged h
        ∙ get-merge j (table_values p device_id table) new

    publish_all-plain :
        (device_id target table : Text) (new : Dict Text (Value Float)) (s : Both Float C)
        → (table == codes "tbl_actual") ≡ false
        → publish_all fl py answers device_id target table new s
          ≡ publish_values fl py answers device_id target table new s
    unfolding publish_all publish_values
    publish_all-plain device_id target table new (p, c) h = rw (publish_all, h)

    published-get :
        (device_id target table j : Text) (new : Dict Text (Value Float)) (s : Both Float C)
        → is_public j ≡ true
        → (table == codes "tbl_actual") ≡ false
        → Dict.get j (
            table_values
              (elim new as (λ (d : Dict Text (Value Float)). Both Float C) [
                | [] ↦ s
                | e ∷ es ↦ publish_all fl py answers device_id target table (e ∷ es) s
              ]).0
              device_id
              table)
          ≡ or_old (Dict.get j (merge [] new)) (Dict.get j (table_values s.0 device_id table))
    unfolding merge Dict.get
    published-get device_id target table j [] s h a = refl
    published-get device_id target table j (e ∷ es) s h a =
        rw (publish_all-plain device_id target table (e ∷ es) s a)
          (publish_values-get device_id target table j (e ∷ es) s h)

    process_fields-get :
        (device_id table j : Text) (fields : Dict Text (Value Float)) (s : Both Float C)
        → (table == codes "tbl_actual") ≡ false
        → is_public j ≡ true
        → Dict.get j
            (table_values (process_fields fl py answers device_id table fields s).0 device_id table)
          ≡ or_old
              (Dict.get j (new_values s.0 table fields))
              (Dict.get j (table_values s.0 device_id table))
    unfolding process_fields
    process_fields-get device_id table j fields (p, c) n h =
        let target = target_device_id fl py p device_id table in
        let transport = is_transport_metadata_frame fl py fields in
        let new = read_fields fl py p.sensors table transport [] fields in
        published-get device_id target table j new
          (discover_fields fl py answers target table transport fields (p, c)) h n
        ∙ ap
            (λ (values : Dict (Text × Text) (Dict Text (Value Float))).
              or_old (Dict.get j (merge [] new))
                (Dict.get j (get_or [] (Dict.get (device_id, table) values))))
            (discover_fields-values target table transport fields (p, c))

    -- For a table that is neither the actual values, nor a poll, nor the second battery: what the
    -- processor then has under a public key is what the frame publishes for it, or else what it
    -- had before.
    pub process-get :
        (device_id table j : Text) (e : Text × Value Float) (es : Dict Text (Value Float))
        (p : FrameProcessor Float) (c : MqttClient Float C)
        → actual_table table ≡ table
        → (table == codes "tbl_actual") ≡ false
        → (table == codes "tbl_batt_prm2") ≡ false
        → is_public j ≡ true
        → Dict.get j
            (table_values (process fl py answers device_id table (e ∷ es) (p, c)).0 device_id table)
          ≡ or_old
              (Dict.get j (new_values p table (e ∷ es)))
              (Dict.get j (table_values p device_id table))
    process-get device_id table j e es p c a n b h =
        let (values, sensors, proxy) = observe_banks-values device_id table (e ∷ es) p in
        rw (process_plain device_id table e es p c a b) (
          process_fields-get device_id table j (e ∷ es)
            (observe_banks fl py device_id table (e ∷ es) p, c) n h
          ∙ ap
              (λ (m : SensorMap (Value Float)).
                or_old
                  (Dict.get j (
                    merge [] (
                      read_fields fl py m table (is_transport_metadata_frame fl py (e ∷ es)) []
                        (e ∷ es))))
                  (Dict.get j (
                    table_values (observe_banks fl py device_id table (e ∷ es) p) device_id table)))
              sensors
          ∙ ap
              (λ (values : Dict (Text × Text) (Dict Text (Value Float))).
                or_old (Dict.get j (new_values p table (e ∷ es)))
                  (Dict.get j (get_or [] (Dict.get (device_id, table) values))))
              values)

    -- A number without a warning leaves the warnings that an earlier one has brought: where the table
    -- is neither the actual values, nor a poll, nor the second battery, the map has the key, which is
    -- public, and no warning is in the number, the warnings that the table had under the key are
    -- still there.
    pub process-stale :
        (device_id table key : Text) (n : ℤ) (m : Metadata (Value Float)) (v : Value Float)
        (p : FrameProcessor Float) (c : MqttClient Float C)
        → actual_table table ≡ table
        → (table == codes "tbl_actual") ≡ false
        → (table == codes "tbl_batt_prm2") ≡ false
        → is_public (key ++ codes "_warnings") ≡ true
        → lookup p.sensors table key ≡ some m
        → decode_warnings n m.warnings_3f ≡ []
        → Dict.get (key ++ codes "_warnings") (table_values p device_id table) ≡ some v
        → Dict.get (key ++ codes "_warnings") (
            table_values
              (process fl py answers device_id table ((key, int n) ∷ []) (p, c)).0
              device_id
              table)
          ≡ some v
    process-stale device_id table key n m v p c a b d h l w g =
        process-get device_id table (key ++ codes "_warnings") (key, int n) [] p c a b d h
        ∙ ap
            (λ (o : Option (Value Float)).
              or_old o (Dict.get (key ++ codes "_warnings") (table_values p device_id table)))
            (new_values-silent table key n m p l w)
        ∙ g
