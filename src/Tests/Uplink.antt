-- ===== src/Tests/Uplink.antt =====
-- A telemetry client and its buffer.
use oig_proxy.Common.{
  ℕ, ◌⊎◌, zero, suc, ◌≤◌, ◌≡◌, refl, Bool, true, false, Option, none, some, List, [], ◌∷◌, Text,
  codes, length, ◌==◌, text_eq, if◌then◌else◌,
}
use oig_proxy.Common.Decimal.{ℤ, pos}
use oig_proxy.Mqtt.{Answer}
use oig_proxy.Frame.LocalAck.{starts_with}
use oig_proxy.Telemetry.Buffer.{Orders, Loaded, no_fault, count_fails, store, inserted, new_buffer}
use oig_proxy.Telemetry.Stored.{BufferCall, stores, done_all, store_bounded}
use oig_proxy.Telemetry.Payloads.{Envelope, metrics, parse_mqtt_url}
use oig_proxy.Telemetry.Client.{
  TelemetryClient, times_out, is_alive, here, then_step, connection_wanted, ensure_connected,
  deliver, remove_sent, flush_messages,
}
use oig_proxy.Telemetry.Flush.{IsFlushed, flush_messages-IsFlushed}
use oig_proxy.Telemetry.Paced.{IsPaced, LinkReaches-IsPaced}

abbrev as_inserted : Orders
as_inserted = record { oldest_first = λ rs. rs; newest_first = λ rs. rs }

abbrev no_payload : Text → Loaded ℕ
no_payload s = Loaded.malformed

abbrev one_call : List BufferCall
one_call = stores (codes "t") (codes "{}") 5 6 count_fails ∷ []

store_bounded_example :
    (length
        (store as_inserted
          (codes "u")
          (codes "{}")
          7
          8
          no_fault
          (done_all as_inserted no_payload one_call new_buffer)).0.rows
      ≤ 1000)
    × ((1000 ≤ length (done_all as_inserted no_payload one_call new_buffer).rows)
        ⊎ (store as_inserted
            (codes "u")
            (codes "{}")
            7
            8
            no_fault
            (done_all as_inserted no_payload one_call new_buffer)).0
          ≡ inserted
              (codes "u")
              (codes "{}")
              7
              (done_all as_inserted no_payload one_call new_buffer))
unfolding store
store_bounded_example =
    store_bounded as_inserted no_payload one_call (codes "u") (codes "{}") 7 8 refl

abbrev client : TelemetryClient ℕ
client = record {
  device_id = codes "2206237016";
  version = codes "2";
  instance_hash = codes "abcd";
  telemetry_interval_s = 300;
  enabled = true;
  has_client = true;
  connected = false;
  buffer = some new_buffer;
  last_buffer_flush = 0;
  last_connect_attempt = 0;
  connect_backoff = 5000;
  attempts = [];
  publications = 0;
  delivered = [];
}

abbrev message : Envelope ℕ
message = record {
  device_id = codes "2206237016";
  instance_hash = codes "abcd";
  version = codes "2";
  timestamp = codes "now";
  body = metrics 300 1;
}

abbrev takes_one : ℕ → Answer
takes_one zero = Answer.accepted
takes_one (suc n) = Answer.raised

abbrev waiting : List (ℕ × Text × Envelope ℕ)
waiting = (1, codes "a", message) ∷ (2, codes "b", message) ∷ []

-- The removal after the first publication fails.
abbrev sticks : ℕ → Bool
sticks zero = false
sticks (suc n) = true

flush_messages-IsFlushed_example :
    IsFlushed takes_one sticks waiting client (flush_messages takes_one sticks waiting client)
flush_messages-IsFlushed_example = flush_messages-IsFlushed takes_one sticks waiting client refl

flush_one : (flush_messages takes_one sticks waiting client).1 ≡ 1
unfolding flush_messages deliver remove_sent
flush_one = refl

abbrev after_attempt : TelemetryClient ℕ
after_attempt = (ensure_connected 6000 is_alive times_out client).0

LinkReaches-IsPaced_example : IsPaced after_attempt
LinkReaches-IsPaced_example =
    LinkReaches-IsPaced client after_attempt refl refl
      (then_step (here client) (connection_wanted 6000 is_alive times_out client))

-- int() of "1883", and of no other text
abbrev port : Text → Option ℤ
port s = if s == codes "1883" then some (pos 1883) else none

default_broker :
    parse_mqtt_url port (codes "mqtt://telemetry.muriel-cz.cz:1883")
    ≡ (codes "telemetry.muriel-cz.cz", pos 1883)
unfolding parse_mqtt_url starts_with
default_broker = refl
