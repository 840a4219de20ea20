-- ===== src/Telemetry/Payloads.antt =====
-- telemetry/client.py: the address of the broker, and the payloads of the messages.
use oig_proxy.Common.{
  ℕ, zero, suc, ◌-◌, Option, none, some, [], ◌∷◌, nat_beq, length, Text, codes, text_eq,
  if◌then◌else◌,
}
use oig_proxy.Common.Dict.{Dict}
use oig_proxy.Common.Decimal.{ℤ, pos}
use oig_proxy.Frame.LocalAck.{starts_with}

-- `s.replace(p, "")`, with the code points of an occurrence that are still to be left out
remove_text : Text → ℕ → Text → Text
remove_text p skip [] = []
remove_text p (suc skip) (c ∷ s) = remove_text p skip s
remove_text p zero (c ∷ s) =
    let rest = remove_text p zero s in
    let tail = remove_text p (length p - 1) s in if starts_with p (c ∷ s) then tail else c ∷ rest

-- `s.rsplit(":", 1)`, where there is a colon
split_last : Text → Option (Text × Text)
split_last [] = none
split_last (c ∷ s) = elim (split_last s) [
  | some (host, port) ↦ some (c ∷ host, port)
  | none ↦ if nat_beq c b':' then some ([], s) else none
]

unfoldable pub parse_mqtt_url : (Text → Option ℤ) → Text → Text × ℤ
unfolding remove_text split_last
parse_mqtt_url int_of url =
    let bare = remove_text (codes "tcp://") 0 (remove_text (codes "mqtt://") 0 url) in
    elim (split_last bare) [
      | none ↦ (bare, pos 1883)
      | some (host, port) ↦ elim (int_of port) [ none ↦ (host, pos 1883) | some n ↦ (host, n) ]
    ]

-- The payloads; `metrics` are those of the collector.
pub data Body (M : Type 0) : Type 0 where
  metrics : (interval_s : ℕ) → M → Body M
  event : (event_type : Text) → (details : Dict Text Text) → Body M

pub record Envelope (M : Type 0) : Type 0 where
  pub device_id : Text
  pub instance_hash : Text
  pub version : Text
  pub timestamp : Text
  pub body : Body M

-- The calls of `send_event`; a number in the details is written by its digits.
pub data TelemetryEvent : Type 0 where
  error_cloud_timeout : (cloud_host timeout_s : Text) → TelemetryEvent
  error_cloud_disconnect : (reason : Text) → TelemetryEvent
  error_box_disconnect : (box_peer : Text) → TelemetryEvent
  error_crc : (frame_info : Text) → TelemetryEvent
  error_mqtt_local : (broker error : Text) → TelemetryEvent
  warning_mode_fallback : (from_mode to_mode reason : Text) → TelemetryEvent
  box_reconnect : (box_peer : Text) → TelemetryEvent
  cloud_reconnect startup shutdown : TelemetryEvent

unfoldable pub event_body : {M : Type 0} → (instance_hash : Text) → TelemetryEvent → Body M
event_body hash (error_cloud_timeout host timeout) =
    event (codes "error_cloud_timeout")
      ((codes "cloud_host", host) ∷ (codes "timeout_s", timeout) ∷ [])
event_body hash (error_cloud_disconnect reason) =
    event (codes "error_cloud_disconnect") ((codes "reason", reason) ∷ [])
event_body hash (error_box_disconnect peer) =
    event (codes "error_box_disconnect") ((codes "box_peer", peer) ∷ [])
event_body hash (error_crc info) = event (codes "error_crc") ((codes "frame_info", info) ∷ [])
event_body hash (error_mqtt_local broker error) =
    event (codes "error_mqtt_local") ((codes "broker", broker) ∷ (codes "error", error) ∷ [])
event_body hash (warning_mode_fallback from_mode to_mode reason) =
    event (codes "warning_mode_fallback")
      ((codes "from_mode", from_mode) ∷ (codes "to_mode", to_mode) ∷ (codes "reason", reason) ∷ [])
event_body hash (box_reconnect peer) = event (codes "box_reconnect") ((codes "box_peer", peer) ∷ [])
event_body hash cloud_reconnect = event (codes "cloud_reconnect") []
event_body hash startup = event (codes "startup") ((codes "instance_hash", hash) ∷ [])
event_body hash shutdown = event (codes "shutdown") []
