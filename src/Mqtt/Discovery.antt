-- ===== src/Mqtt/Discovery.antt =====
-- mqtt/client.py: `send_discovery`.
use oig_proxy.Common.{
  ℕ, Bool, true, false, not, ◌&&◌, ◌||◌, Option, none, some, [], ◌∷◌, ◌++◌, Text, codes, ◌==◌,
  text_eq, pair_eq, lower, if◌then◌else◌,
}
use oig_proxy.Common.Dict
use oig_proxy.Common.Dict.{Dict, values}
use oig_proxy.Common.Decimal.{ℤ}
use oig_proxy.Constraints.{SettingConstraint, setting_constraints, is_setting_allowed}
use oig_proxy.Mqtt.{
  Answer, is_accepted, Payload, sensor, control, MqttClient, member, insert, slash,
  availability_topic, state_topic, config_topic, is_ready, publish, retained,
}
use oig_proxy.Mqtt.Entities.{
  Entity, Template, plain, labelled, selected, DeviceInfo, SensorConfig, ControlConfig, ControlKind,
  number, switch, select, unless_empty, device_label, build_object_id, is_binary_control_constraint,
  is_select_control, ordered_enum_items,
}

abbrev joined : Text → Text → Text
joined s t = s ++ (codes "_" ++ t)

-- `unique_id`, and that of the control
unfoldable pub unique_id : Text → Entity → Text
unfolding lower
unique_id namespace e =
    lower (joined namespace (joined e.device_id (joined e.table (lower e.sensor_key))))

unfoldable pub control_unique_id : Text → Entity → Text
unfolding unique_id
control_unique_id namespace e = unique_id namespace e ++ codes "_cfg"

unfoldable pub command_topic : Text → Entity → Text
command_topic namespace e =
    namespace ++ (slash ++ (e.device_id ++ (codes "/set/" ++ (e.table ++ (slash ++ e.sensor_key)))))

abbrev mapped_device : Entity → Text
mapped_device e = elim e.device_mapping [ [] ↦ codes "inverter" | c ∷ s ↦ c ∷ s ]

device_info : Text → Entity → DeviceInfo
unfolding device_label
device_info namespace e =
    let mapped = mapped_device e in
    record {
      identifier = joined namespace (joined e.device_id mapped);
      label = device_label mapped;
      owner = e.device_id;
      via_device =
          if mapped == codes "inverter" || mapped == codes "proxy"
          then none
          else some (joined namespace (joined e.device_id (codes "inverter")));
    }

abbrev sensor_component : Entity → Text
sensor_component e = if e.is_binary then codes "binary_sensor" else codes "sensor"

abbrev sensor_template : Entity → Template
sensor_template e = elim e.enum_map [
  | [] ↦ plain e.sensor_key
  | i ∷ is ↦ labelled e.sensor_key (i ∷ is)
]

unfoldable pub sensor_config : Text → Entity → SensorConfig
unfolding device_info unique_id build_object_id state_topic availability_topic lower
sensor_config namespace e =
    let object_id = build_object_id e.device_id e.table (lower e.sensor_key) false in
    record {
      name = e.sensor_name;
      object_id = object_id;
      default_entity_id = sensor_component e ++ (codes "." ++ object_id);
      unique_id = unique_id namespace e;
      state_topic = state_topic namespace e.device_id e.table;
      template = sensor_template e;
      availability = availability_topic namespace e.device_id;
      device = device_info namespace e;
      unit_of_measurement = unless_empty e.unit;
      device_class = unless_empty e.device_class;
      state_class = unless_empty e.state_class;
      icon = unless_empty e.icon;
      entity_category = unless_empty e.entity_category;
      has_payloads = e.is_binary;
    }

-- The bounds of a number.
abbrev pub bound_of : (SettingConstraint → Option ℕ) → Option SettingConstraint → Option ℕ
bound_of f none = none
bound_of f (some c) = f c

abbrev pub constraint_of : Entity → Option SettingConstraint
constraint_of e = Dict.get (e.table, e.sensor_key) setting_constraints

unfoldable pub is_dual : Entity → Bool
is_dual e = e.table == codes "tbl_box_prms" && e.sensor_key == codes "MODE"

abbrev pub selected_by : Entity → Dict Text Text → ControlKind
selected_by e items = select (values items) (selected e.sensor_key items)

abbrev pub control_component : ControlKind → Text
control_component (number u d lo hi s) = codes "number"
control_component switch = codes "switch"
control_component (select o t) = codes "select"

abbrev control_template : Entity → ControlKind → Template
control_template e (number u d lo hi s) = plain e.sensor_key
control_template e switch = plain e.sensor_key
control_template e (select o t) = t

module _ {F C : Type 0} (answers : ℕ → Answer) where
  -- a configuration is published, and its id kept if paho takes it
  unfoldable pub publish_config :
      (component id : Text) → Payload F → MqttClient F C → MqttClient F C × Bool
  unfolding publish config_topic
  publish_config component id payload c =
      let (c1, answer) = publish answers (retained (config_topic component id) payload) c in
      if is_accepted answer
      then (record c1 { discovery_sent = insert id c1.discovery_sent }, true)
      else (c1, false)

  -- the sensor of the mode, which has one beside its control
  unfoldable pub send_sensor : Entity → MqttClient F C → MqttClient F C × Bool
  send_sensor e c =
      publish_config (sensor_component e) (unique_id c.namespace e)
        (sensor (sensor_config c.namespace e)) c

module _ (int_of : Text → Option ℤ) where
  unfoldable pub control_kind : Entity → ControlKind
  unfolding is_select_control is_binary_control_constraint ordered_enum_items Dict.get
  control_kind e =
      let constraint = constraint_of e in
      if is_select_control e.table e.sensor_key e.enum_map
      then selected_by e (ordered_enum_items int_of e.enum_map)
      else if e.is_binary || is_binary_control_constraint constraint
      then switch
      else number (unless_empty e.unit) (unless_empty e.device_class)
          (bound_of (λ c. c.min_value) constraint) (bound_of (λ c. c.max_value) constraint)
          (bound_of (λ c. c.step) constraint)

  unfoldable pub control_config : Text → Entity → ControlConfig
  unfolding control_kind device_info control_unique_id build_object_id state_topic
      availability_topic command_topic lower
  control_config namespace e =
      let object_id = build_object_id e.device_id e.table (lower e.sensor_key) true in
      let kind = control_kind e in
      record {
        name = e.sensor_name;
        object_id = object_id;
        default_entity_id = control_component kind ++ (codes "." ++ object_id);
        unique_id = control_unique_id namespace e;
        state_topic = state_topic namespace e.device_id e.table;
        template = control_template e kind;
        command_topic = command_topic namespace e;
        availability = availability_topic namespace e.device_id;
        device = device_info namespace e;
        kind = kind;
      }

  module _ {F C : Type 0} (answers : ℕ → Answer) where
    unfoldable pub send_control_config : Entity → MqttClient F C → MqttClient F C × Bool
    send_control_config e c =
        publish_config answers (control_component (control_kind e))
          (control_unique_id c.namespace e) (control (control_config c.namespace e)) c

    -- the branch of a setting
    unfoldable pub send_control : Entity → MqttClient F C → MqttClient F C × Bool
    send_control e c =
        let sent = member (unique_id c.namespace e) c.discovery_sent in
        if member (control_unique_id c.namespace e) c.discovery_sent && (not (is_dual e) || sent)
        then (c, true)
        else let (c1, done) =
            if is_dual e && not sent then send_sensor answers e c else (c, true) in
          if done then send_control_config e c1 else (c1, false)

    unfoldable pub send_discovery : Entity → MqttClient F C → MqttClient F C × Bool
    send_discovery e c =
        if not (is_ready c)
        then (c, false)
        else if member (unique_id c.namespace e) c.discovery_sent
        then (c, true)
        else if is_setting_allowed e.table e.sensor_key
        then send_control e c
        else send_sensor answers e c
