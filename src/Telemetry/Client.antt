-- ===== src/Telemetry/Client.antt =====
-- telemetry/client.py: `TelemetryClient`. Times are milliseconds; the library paho and the network
-- are parameters by what they answer.
use oig_proxy.Common.{
  ℕ, zero, suc, ◌+◌, ◌*◌, Bool, true, false, not, ◌&&◌, Option, none, some, List, [], ◌∷◌, ◌++◌,
  ltb, Text, codes, ◌==◌, text_eq, if◌then◌else◌,
}
use oig_proxy.Mqtt.{Answer, is_accepted}
use oig_proxy.Telemetry.Payloads.{Body, metrics, Envelope, TelemetryEvent, event_body}
use oig_proxy.Telemetry.Buffer.{
  Orders, Loaded, TelemetryBuffer, Fault, store, get_pending, remove, count, close,
}

-- The client; `attempts` are the readings of the clock at which it has tried to connect, and
-- `delivered` what the broker has taken, in order.
pub record TelemetryClient (M : Type 0) : Type 0 where
  pub device_id : Text
  pub version : Text
  pub instance_hash : Text
  pub telemetry_interval_s : ℕ
  pub enabled : Bool
  pub has_client : Bool
  pub connected : Bool
  pub buffer : Option TelemetryBuffer
  pub last_buffer_flush : ℕ
  pub last_connect_attempt : ℕ
  pub connect_backoff : ℕ
  pub attempts : List ℕ
  pub publications : ℕ
  pub delivered : List (Text × Envelope M)

-- What becomes of a new connection within five seconds: the callback comes, it does not, or the
-- connect raises.
pub data Created : Type 0 where
  comes_up times_out fails : Created

-- What an existing connection says when it is asked, and the new one that is made where the
-- reconnection raises.
pub data Redial : Type 0 where
  is_alive reconnects raises : Redial

abbrev pub first_backoff : ℕ
first_backoff = 5000

abbrev pub last_backoff : ℕ
last_backoff = 300000

abbrev pub min_of : ℕ → ℕ → ℕ
min_of a b = if ltb a b then a else b

module _ {M : Type 0} where
  unfoldable pub set_device_id : Text → TelemetryClient M → TelemetryClient M
  set_device_id value c = record c { device_id = value }

  -- the callbacks
  unfoldable pub on_connect : (rc : ℕ) → TelemetryClient M → TelemetryClient M
  on_connect zero c = record c { connected = true; connect_backoff = first_backoff }
  on_connect (suc rc) c = c

  unfoldable pub on_disconnect : TelemetryClient M → TelemetryClient M
  on_disconnect c = record c { connected = false }

  unfoldable pub cleanup_client : TelemetryClient M → TelemetryClient M
  cleanup_client c =
      if not c.has_client then c else record c { has_client = false; connected = false }

  abbrev backed_off : TelemetryClient M → TelemetryClient M
  backed_off c = record c { connect_backoff = min_of (c.connect_backoff * 2) last_backoff }

  -- `_create_client`; without paho no client is enabled
  unfoldable pub create_client : Created → TelemetryClient M → TelemetryClient M × Bool
  unfolding on_connect cleanup_client
  create_client comes_up c = (on_connect 0 (record c { has_client = true }), true)
  create_client times_out c = (backed_off (cleanup_client (record c { has_client = true })), false)
  create_client fails c = (backed_off (cleanup_client (record c { has_client = true })), false)

  unfoldable pub redial : Redial → Created → TelemetryClient M → TelemetryClient M × Bool
  unfolding create_client cleanup_client
  redial is_alive created c = (record c { connected = true }, true)
  redial reconnects created c = (c, c.connected)
  redial raises created c = create_client created (cleanup_client c)

  unfoldable pub ensure_connected :
      (now : ℕ) → Redial → Created → TelemetryClient M → TelemetryClient M × Bool
  unfolding redial create_client
  ensure_connected now answer created c =
      if c.connected && c.has_client
      then (c, true)
      else if ltb now (c.last_connect_attempt + c.connect_backoff)
      then (c, false)
      else let c1 = record c { last_connect_attempt = now; attempts = now ∷ c.attempts } in
        if c1.has_client then redial answer created c1 else create_client created c1

  unfoldable pub disconnect : (closed : Bool) → TelemetryClient M → TelemetryClient M
  unfolding cleanup_client close
  disconnect closed c =
      let c1 = cleanup_client c in
      elim c1.buffer [ none ↦ c1 | some b ↦ record c1 { buffer = some (close closed b) } ]

  unfoldable pub is_ready : TelemetryClient M → Bool
  is_ready c = c.enabled && c.connected

  unfoldable pub is_buffering : TelemetryClient M → Bool
  is_buffering c = c.enabled && not c.connected && elim c.buffer [ none ↦ false | some b ↦ true ]

  unfoldable pub get_buffer_count : (counted : Bool) → TelemetryClient M → ℕ
  unfolding count
  get_buffer_count counted c = elim c.buffer [ none ↦ 0 | some b ↦ count counted b ]

  unfoldable pub remove_sent : (removed : Bool) → ℕ → TelemetryClient M → TelemetryClient M
  unfolding remove
  remove_sent removed id c = record c {
    buffer = elim c.buffer [ none ↦ none | some b ↦ some (remove removed id b) ];
  }

  -- The states of a connection: the callbacks, the attempts, and the ends.
  pub data LinkStep : TelemetryClient M → TelemetryClient M → Type 0 where
    connect_answered : (rc : ℕ) (c : TelemetryClient M) → LinkStep c (on_connect rc c)
    connection_lost : (c : TelemetryClient M) → LinkStep c (on_disconnect c)
    connection_wanted :
        (now : ℕ) (answer : Redial) (created : Created) (c : TelemetryClient M)
        → LinkStep c (ensure_connected now answer created c).0
    disconnected : (closed : Bool) (c : TelemetryClient M) → LinkStep c (disconnect closed c)

  pub data LinkReaches : TelemetryClient M → TelemetryClient M → Type 0 where
    here : (c : TelemetryClient M) → LinkReaches c c
    then_step : {a b c : TelemetryClient M} → LinkReaches a b → LinkStep b c → LinkReaches a c

  module _ (answers : ℕ → Answer) where
    -- `client.publish`
    unfoldable pub deliver :
        (topic : Text) → Envelope M → TelemetryClient M → TelemetryClient M × Bool
    deliver topic p c =
        let c1 = record c { publications = c.publications + 1 } in
        if is_accepted (answers c.publications)
        then (record c1 { delivered = c1.delivered ++ (topic, p) ∷ [] }, true)
        else (c1, false)

    unfoldable pub publish_sync :
        (now : ℕ)
        → Redial
        → Created
        → (topic : Text) → Envelope M
        → TelemetryClient M
        → TelemetryClient M × Bool
    publish_sync now answer created topic p c =
        let (c1, up) = ensure_connected now answer created c in
        if not up then (c1, false) else if c1.has_client then deliver topic p c1 else (c1, false)

    -- The loop over the messages, with the count of those that were sent. Whether the removal of a
    -- message from the buffer succeeds is told by the number of its publication.
    unfoldable pub flush_messages :
        (removals : ℕ → Bool)
        → List (ℕ × Text × Envelope M)
        → TelemetryClient M
        → TelemetryClient M × ℕ
    flush_messages removals [] c = (c, 0)
    flush_messages removals ((id, topic, p) ∷ messages) c =
        let (c1, done) = deliver topic p c in
        let (c2, sent) =
          flush_messages removals messages (remove_sent (removals c.publications) id c1) in
        if not c.has_client then (c, 0) else if done then (c2, sent + 1) else (c1, 0)

    module _ (orders : Orders) (dumps : Envelope M → Text)
        (loads : Text → Loaded (Envelope M)) where
      unfoldable pub flush_buffer_sync :
          (now : ℕ)
          → Redial
          → Created
          → (failed_at : Option ℕ) (removals : ℕ → Bool) → TelemetryClient M
          → TelemetryClient M × ℕ
      flush_buffer_sync now answer created failed_at removals c = elim c.buffer [
        | none ↦ (c, 0)
        | some b ↦
            let (c1, up) = ensure_connected now answer created c in
            if not up
            then (c1, 0)
            else let (b1, messages) = get_pending orders loads 50 failed_at b in
              flush_messages removals messages (record c1 { buffer = some b1 })
      ]

      -- a message that is not taken by the broker goes into the buffer
      unfoldable pub keep_message :
          (topic : Text)
          → Envelope M
          → (now later : ℕ) → Fault
          → TelemetryClient M
          → TelemetryClient M × Bool
      keep_message topic p now later fault c = elim c.buffer [
        | none ↦ (c, false)
        | some b ↦
            let (b1, kept) = store orders topic (dumps p) now later fault b in
            (record c { buffer = some b1 }, kept)
      ]

      abbrev pub envelope : (timestamp : Text) → Body M → TelemetryClient M → Envelope M
      envelope timestamp body c = record {
        device_id = c.device_id;
        instance_hash = c.instance_hash;
        version = c.version;
        timestamp = timestamp;
        body = body;
      }

      -- What the clocks, the network and the database answer to one call: the two clocks for the
      -- connection, the time of the day for the flush, and that for the row and the cleanup.
      pub record World : Type 0 where
        pub monotonic : ℕ
        pub monotonic_flush : ℕ
        pub redial : Redial
        pub created : Created
        pub now : ℕ
        pub later : ℕ
        pub written : Text
        pub fault : Fault
        pub failed_at : Option ℕ
        pub removals : ℕ → Bool

      -- the buffer is flushed at most once in a minute
      unfoldable pub maybe_flush : World → TelemetryClient M → TelemetryClient M
      maybe_flush w c = elim c.buffer [
        | none ↦ c
        | some b ↦
            if ltb (c.last_buffer_flush + 60000) w.now
            then (flush_buffer_sync w.monotonic_flush w.redial w.created w.failed_at w.removals
                (record c { last_buffer_flush = w.now })).0
            else c
      ]

      unfoldable pub send_telemetry : World → M → TelemetryClient M → TelemetryClient M × Bool
      send_telemetry w m c =
          if not c.enabled
          then (c, false)
          else if c.device_id == []
          then (c, false)
          else let topic = codes "oig/telemetry/" ++ c.device_id in
            let p = envelope w.written (metrics c.telemetry_interval_s m) c in
            let (c1, done) = publish_sync w.monotonic w.redial w.created topic p c in
            if done then (maybe_flush w c1, true) else keep_message topic p w.now w.later w.fault c1

      unfoldable pub send_event :
          World → TelemetryEvent → TelemetryClient M → TelemetryClient M × Bool
      unfolding event_body
      send_event w e c =
          if not c.enabled
          then (c, false)
          else if c.device_id == []
          then (c, false)
          else let topic = codes "oig/events/" ++ c.device_id in
            let p = envelope w.written (event_body c.instance_hash e) c in
            let (c1, done) = publish_sync w.monotonic w.redial w.created topic p c in
            if done then (c1, true) else keep_message topic p w.now w.later w.fault c1
