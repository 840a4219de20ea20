-- ===== src/Tests/Broker.antt =====
-- A client of MQTT with two entities, and topics.
use oig_proxy.Common.{
  ℕ, zero, suc, ◌≡◌, ◌⊎◌, ◌↔◌, refl, true, false, Option, none, some, List, [], ◌∷◌, Text, codes,
  length,
}
use oig_proxy.Common.Decimal.{ℤ, pos}
use oig_proxy.Common.Dict.{Dict}
use oig_proxy.Values.{int}
use oig_proxy.Tests.{whole, whole-ExactComparison}
use oig_proxy.Handler.{topic_compat, named_by_topic}
use oig_proxy.Constraints.{is_setting_allowed, parse_numeric, validate_setting_value, accepted}
use oig_proxy.Constraints.Bounds.{StandsFor}
use oig_proxy.Mqtt.{
  Answer, Publication, is_accepted, MqttClient, availability_topic, state_publication,
  publish_state, on_connect, announce, remove_legacy_discovery, connection, is_ready, member,
  retained, online,
}
use oig_proxy.Mqtt.Topics.{parts, topic_matches, Matches, topic_matches-iff-Matches}
use oig_proxy.Mqtt.Entities.{Entity}
use oig_proxy.Mqtt.Discovery.{
  is_dual, send_control, send_sensor, publish_config, send_control_config, send_discovery,
  command_topic, control_kind,
}
use oig_proxy.Mqtt.Once.{send_discovery_again, send_discovery_loses_control}
use oig_proxy.Mqtt.Control.{command_topic-named_by_topic, control_kind-StandsFor}
use oig_proxy.Mqtt.Online.{IsOnline}
use oig_proxy.Mqtt.Runs.{here, then_step, connect_answered, publish_state-IsOnline}

abbrev pub device : Text
device = codes "2206237016"

abbrev entity : Text → Text → Dict Text Text → Entity
entity table key labels = record {
  device_id = device;
  table = table;
  sensor_key = key;
  sensor_name = codes "Name";
  unit = codes "%";
  device_class = [];
  state_class = [];
  icon = [];
  device_mapping = codes "box";
  entity_category = [];
  is_binary = false;
  enum_map = labels;
}

abbrev mode_entity : Entity
mode_entity =
    entity (codes "tbl_box_prms") (codes "MODE")
      ((codes "0", codes "Home 1") ∷ (codes "1", codes "Home 2") ∷ [])

abbrev limit_entity : Entity
limit_entity = entity (codes "tbl_batt_prms") (codes "BAT_MIN") []

-- int() of a digit
abbrev pub digit : Text → Option ℤ
digit [] = none
digit (c ∷ s) = some (pos c)

abbrev pub client : MqttClient ℤ ℕ
client = record {
  namespace = codes "oig_local";
  qos = 1;
  state_retain = true;
  has_client = true;
  connected = true;
  discovery_sent = [];
  availability_online_sent = [];
  all_known_device_ids = [];
  publish_count = 0;
  publish_success = 0;
  publish_failed = 0;
  callbacks = [];
  connected_at = 0;
  connect_device_id = device;
  published = [];
}

abbrev pub takes_all : ℕ → Answer
takes_all n = Answer.accepted

abbrev takes_first : ℕ → Answer
takes_first zero = Answer.accepted
takes_first (suc n) = Answer.refused

command_topic_mode :
    command_topic (codes "oig_local") mode_entity
    ≡ codes "oig_local/2206237016/set/tbl_box_prms/MODE"
unfolding command_topic
command_topic_mode = refl

-- A `#` behind a `+` fits the level two above, which the wildcards of MQTT do not.
plus_hash : topic_matches (codes "a/+/#") (codes "a") ≡ true
unfolding topic_matches
plus_hash = refl

topic_matches-iff-Matches_example :
    (topic_matches (codes "a/+/b") (codes "a/x/b") ≡ true)
    ↔ Matches (parts (codes "a/+/b")) (parts (codes "a/x/b"))
unfolding parts
topic_matches-iff-Matches_example =
    topic_matches-iff-Matches (codes "a/+/b") (codes "a/x/b")
      (λ e. cc, λ e f. cc, (λ e. cc, λ e f. cc, tt))

send_discovery_again_example :
    send_discovery digit takes_all mode_entity (send_discovery digit takes_all mode_entity client).0
    ≡ ((send_discovery digit takes_all mode_entity client).0, true)
unfolding send_discovery is_setting_allowed send_control is_dual send_sensor publish_config
    send_control_config
send_discovery_again_example = send_discovery_again digit takes_all mode_entity client refl refl

send_discovery_loses_control_example :
    ((send_discovery digit takes_first mode_entity client).1 ≡ false)
    × (send_discovery digit takes_first mode_entity
          (send_discovery digit takes_first mode_entity client).0
        ≡ ((send_discovery digit takes_first mode_entity client).0, true))
unfolding send_discovery is_dual is_setting_allowed
send_discovery_loses_control_example =
    send_discovery_loses_control digit takes_first mode_entity client refl refl refl refl refl refl

command_topic-named_by_topic_example :
    (topic_matches
        (topic_compat (codes "oig_local"))
        (command_topic (codes "oig_local") limit_entity)
      ≡ true)
    × (named_by_topic (codes "oig_local") (command_topic (codes "oig_local") limit_entity)
        ≡ some (codes "tbl_batt_prms", codes "BAT_MIN"))
unfolding is_setting_allowed
command_topic-named_by_topic_example =
    command_topic-named_by_topic (codes "oig_local") limit_entity refl refl refl

control_kind-StandsFor_example :
    (min_value : ℕ) × (max_value : ℕ) × (◌≡◌ {A = Option ℕ} (some 20) (some min_value))
    × (◌≡◌ {A = Option ℕ} (some 100) (some max_value))
    × ((validate_setting_value whole (codes "tbl_batt_prms") (codes "BAT_MIN") (int (pos 30))
          ≡ accepted (int (pos 30)))
        ↔ StandsFor whole whole-ExactComparison min_value max_value
            (parse_numeric whole (int (pos 30)))
            (int (pos 30)))
unfolding control_kind is_setting_allowed
control_kind-StandsFor_example =
    control_kind-StandsFor whole whole-ExactComparison digit limit_entity refl (int (pos 30))
      (int (pos 30)) refl

-- The client after its second connection.
abbrev connected_again : MqttClient ℤ ℕ
connected_again = on_connect takes_all 0 (λ ds. ds) (on_connect takes_all 0 (λ ds. ds) client)

connected_again-is_ready : is_ready connected_again ≡ true
unfolding on_connect announce remove_legacy_discovery connection
connected_again-is_ready = refl

publish_state-IsOnline_example :
    let (d', succeeds) = publish_state takes_all device (codes "tbl_box_prms") [] connected_again in
    (ps : List (Publication ℤ)) × (d'.published
      ≡ state_publication connected_again.namespace device
          (codes "tbl_box_prms")
          []
          connected_again.qos
          connected_again.state_retain
        ∷ ps)
    × (succeeds ≡ is_accepted (takes_all (length ps)))
    × (IsOnline takes_all connected_again.connected_at
          (availability_topic connected_again.namespace device)
          ps
        ⊎ ((ps
              ≡ retained (availability_topic connected_again.namespace device) online
                ∷ connected_again.published)
            × (member device d'.availability_online_sent
                ≡ is_accepted (takes_all (length connected_again.published)))))
publish_state-IsOnline_example =
    publish_state-IsOnline digit takes_all device (codes "tbl_box_prms") [] refl refl
      (then_step (then_step (here client) (connect_answered 0 (λ ds. ds) client))
        (connect_answered 0 (λ ds. ds) (on_connect takes_all 0 (λ ds. ds) client)))
      connected_again-is_ready
