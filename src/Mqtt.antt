-- ===== src/Mqtt.antt =====
-- mqtt/client.py: `MQTTClient`. The library paho is a parameter by the answers that it gives to the
-- publications, in their order; what has been handed to it is kept in the state.
pub mod Topics
pub mod Entities
pub mod Discovery
pub mod Sending
pub mod Once
pub mod Control
pub mod Online
pub mod Runs
use oig_proxy.Common.{
  ℕ, zero, suc, ◌+◌, Bool, true, false, not, ◌&&◌, ◌||◌, Option, none, some, List, [], ◌∷◌, ◌++◌,
  any, length, Text, codes, ◌==◌, text_eq, lower, if◌then◌else◌,
}
use oig_proxy.Common.Dict
use oig_proxy.Common.Dict.{Dict}
use oig_proxy.Values.{Value}
use oig_proxy.Mqtt.Entities.{SensorConfig, ControlConfig}

-- The `rc` of an answer is 0 or not, or the call raises.
pub data Answer : Type 0 where
  accepted refused raised : Answer

abbrev pub is_accepted : Answer → Bool
is_accepted accepted = true
is_accepted refused = false
is_accepted raised = false

abbrev pub is_raised : Answer → Bool
is_raised accepted = false
is_raised refused = false
is_raised raised = true

-- The objects that `json.dumps` writes, before it writes them.
pub data Payload (F : Type 0) : Type 0 where
  online empty : Payload F
  state : Dict Text (Value F) → Payload F
  sensor : SensorConfig → Payload F
  control : ControlConfig → Payload F

pub record Publication (F : Type 0) : Type 0 where
  pub topic : Text
  pub payload : Payload F
  pub qos : ℕ
  pub retain : Bool

-- A set of texts.
abbrev pub member : Text → List Text → Bool
member x xs = any (λ y. y == x) xs

abbrev pub insert : Text → List Text → List Text
insert x xs = if member x xs then xs else x ∷ xs

-- `callbacks` are `_subscriptions`; `published` is what paho has been given, the last one first, and
-- `connected_at` how many of them came before the connection that was made last.
pub record MqttClient (F C : Type 0) : Type 0 where
  pub namespace : Text
  pub qos : ℕ
  pub state_retain : Bool
  pub has_client : Bool
  pub connected : Bool
  pub discovery_sent : List Text
  pub availability_online_sent : List Text
  pub all_known_device_ids : List Text
  pub publish_count : ℕ
  pub publish_success : ℕ
  pub publish_failed : ℕ
  pub callbacks : Dict Text C
  pub connect_device_id : Text
  pub published : List (Publication F)
  pub connected_at : ℕ

abbrev pub slash : Text
slash = codes "/"

unfoldable pub availability_topic : Text → Text → Text
availability_topic namespace device_id =
    namespace ++ (slash ++ (device_id ++ codes "/availability"))

unfoldable pub state_topic : Text → Text → Text → Text
state_topic namespace device_id table =
    namespace ++ (slash ++ (device_id ++ (slash ++ (table ++ codes "/state"))))

-- `LEGACY_DISCOVERY_TOMBSTONES`: component, table, key and suffix.
abbrev pub legacy_discovery_tombstones : List (Text × Text × Text × Text)
legacy_discovery_tombstones =
    (codes "number", codes "tbl_invertor_prm1", codes "v_max_ac", codes "_cfg")
    ∷ (codes "number", codes "tbl_invertor_prm1", codes "v_min_ac", codes "_cfg")
    ∷ (codes "number", codes "tbl_invertor_prm1", codes "a_max_dis_hyb", codes "_cfg")
    ∷ (codes "binary_sensor", codes "tbl_batt_prms", codes "bat_di", [])
    ∷ (codes "sensor", codes "proxy_control", codes "proxy_mode", [])
    ∷ []

-- `homeassistant/{component}/{unique_id}/config`
unfoldable pub config_topic : Text → Text → Text
config_topic component unique_id =
    codes "homeassistant/" ++ (component ++ (slash ++ (unique_id ++ codes "/config")))

abbrev pub is_ready : {F C : Type 0} → MqttClient F C → Bool
is_ready c = c.has_client && c.connected

abbrev pub retained : {F : Type 0} → Text → Payload F → Publication F
retained topic payload = record { topic = topic; payload = payload; qos = 1; retain = true }

abbrev pub state_publication :
    {F : Type 0}
    → (namespace device_id table : Text) → Dict Text (Value F)
    → ℕ
    → Bool
    → Publication F
state_publication namespace device_id table fields qos retain = record {
  topic = state_topic namespace device_id table;
  payload = state fields;
  qos = qos;
  retain = retain;
}

module _ {F C : Type 0} where
  -- `_on_disconnect` and `_cleanup`
  unfoldable pub on_disconnect : MqttClient F C → MqttClient F C
  on_disconnect c = record c { connected = false }

  unfoldable pub cleanup : MqttClient F C → MqttClient F C
  cleanup c = record c { has_client = false; connected = false }

  unfoldable pub note_online : Text → MqttClient F C → MqttClient F C
  note_online device_id c = record c {
    availability_online_sent = insert device_id c.availability_online_sent;
  }

  -- the client with its connection, before anything is announced
  unfoldable pub connection : MqttClient F C → MqttClient F C
  connection c = record c {
    connected = true;
    discovery_sent = [];
    availability_online_sent = [];
    connected_at = length c.published;
  }

  -- with the answer of paho to the request
  unfoldable pub subscribe : Text → C → Answer → MqttClient F C → MqttClient F C × Bool
  unfolding Dict.put
  subscribe topic callback answer c =
      if not (is_ready c)
      then (c, false)
      else (record c { callbacks = Dict.put topic callback c.callbacks }, is_accepted answer)

  unfoldable pub unsubscribe : Text → Answer → MqttClient F C → MqttClient F C × Bool
  unfolding Dict.erase
  unsubscribe topic answer c =
      if not (is_ready c)
      then (c, false)
      else (record c { callbacks = Dict.erase topic c.callbacks }, is_accepted answer)

module _ {F C : Type 0} (answers : ℕ → Answer) where
  -- `client.publish`
  unfoldable pub publish : Publication F → MqttClient F C → MqttClient F C × Answer
  publish p c = (record c { published = p ∷ c.published }, answers (length c.published))

  -- The loop over the tombstones, which a call that raises ends.
  unfoldable pub remove_legacy_discovery :
      List (Text × Text × Text × Text) → Text → MqttClient F C → MqttClient F C
  unfolding publish config_topic lower
  remove_legacy_discovery [] device_id c = c
  remove_legacy_discovery ((component, table, key, suffix) ∷ rest) device_id c =
      let unique_id = lower (
        c.namespace
        ++ (codes "_"
            ++ (device_id ++ (codes "_" ++ (table ++ (codes "_" ++ (key ++ suffix))))))) in
      let (c1, answer) = publish (retained (config_topic component unique_id) empty) c in
      let cleared = remove_legacy_discovery rest device_id c1 in
      if is_raised answer then c1 else cleared

  -- The loop over the devices. An answer is not read; a call that raises ends the callback, which
  -- the flag tells.
  unfoldable pub announce : List Text → MqttClient F C → MqttClient F C × Bool
  unfolding publish availability_topic note_online
  announce [] c = (c, true)
  announce (device_id ∷ rest) c =
      let (c1, answer) = publish (retained (availability_topic c.namespace device_id) online) c in
      let announced = announce rest (note_online device_id c1) in
      if is_raised answer then (c1, false) else announced

  -- `_on_connect`, with the order in which the set of the devices is read
  unfoldable pub on_connect :
      (rc : ℕ) → (order : List Text → List Text) → MqttClient F C → MqttClient F C
  unfolding announce connection remove_legacy_discovery
  on_connect zero order c =
      let (c1, done) =
        announce (order (insert c.connect_device_id c.all_known_device_ids)) (connection c) in
      if done
      then remove_legacy_discovery legacy_discovery_tombstones c.connect_device_id c1
      else c1
  on_connect (suc rc) order c = record c { connected = false }

  -- the device is announced before its first state
  unfoldable pub announce_state : Text → MqttClient F C → MqttClient F C
  unfolding publish availability_topic
  announce_state device_id c =
      if member device_id c.availability_online_sent
      then c
      else let (c1, answer) =
          publish (retained (availability_topic c.namespace device_id) online) c in
        if is_accepted answer
        then record c1 {
          availability_online_sent = insert device_id c1.availability_online_sent;
          all_known_device_ids = insert device_id c1.all_known_device_ids;
        }
        else c1

  unfoldable pub publish_state :
      (device_id table : Text) → Dict Text (Value F) → MqttClient F C → MqttClient F C × Bool
  unfolding announce_state publish state_topic
  publish_state device_id table fields c =
      if not (is_ready c)
      then (record c { publish_failed = c.publish_failed + 1 }, false)
      else let c1 = announce_state device_id (record c { publish_count = c.publish_count + 1 }) in
        let (c2, answer) =
          publish (state_publication c.namespace device_id table fields c.qos c.state_retain) c1 in
        if is_accepted answer
        then (record c2 { publish_success = c2.publish_success + 1 }, true)
        else (record c2 { publish_failed = c2.publish_failed + 1 }, false)
