-- ===== src/Mqtt/Runs.antt =====
-- mqtt/client.py: the runs of a client, through its calls and callbacks.
use oig_proxy.Common.{
  ℕ, ◌+◌, ◌≡◌, ◌⊎◌, ◌∙◌, ap, refl, arith, inl, inr, true, List, [], ◌∷◌, Text, text_eq, Bool-cases,
  length, Option,
}
use oig_proxy.Common.Dict.{Dict}
use oig_proxy.Common.Decimal.{ℤ}
use oig_proxy.Values.{Value}
use oig_proxy.Mqtt.{
  Answer, is_accepted, Publication, online, member, retained, MqttClient, is_ready, publish,
  availability_topic, state_publication, on_connect, on_disconnect, cleanup, publish_state,
  subscribe, unsubscribe,
}
use oig_proxy.Mqtt.Entities.{Entity}
use oig_proxy.Mqtt.Discovery.{send_discovery}
use oig_proxy.Mqtt.Online.{
  IsOnline, IsAnnounced, announced, on_connect-IsAnnounced, publish_state-IsAnnounced,
  send_discovery-IsAnnounced, subscribe-IsAnnounced, unsubscribe-IsAnnounced,
  announce_state-IsAnnounced,
}

module _ {F C : Type 0} (int_of : Text → Option ℤ) (answers : ℕ → Answer) where
  -- What happens to a client: the calls and the callbacks.
  pub data ClientStep : MqttClient F C → MqttClient F C → Type 0 where
    connect_answered :
        (rc : ℕ) (order : List Text → List Text) (c : MqttClient F C)
        → ClientStep c (on_connect answers rc order c)
    client_created :
        (device_id : Text) (c : MqttClient F C)
        → ClientStep c (record c { connect_device_id = device_id; has_client = true })
    disconnected : (c : MqttClient F C) → ClientStep c (on_disconnect c)
    cleaned_up : (c : MqttClient F C) → ClientStep c (cleanup c)
    state_published :
        (device_id table : Text) (fields : Dict Text (Value F)) (c : MqttClient F C)
        → ClientStep c (publish_state answers device_id table fields c).0
    discovery_sent :
        (e : Entity) (c : MqttClient F C) → ClientStep c (send_discovery int_of answers e c).0
    subscribed :
        (topic : Text) (callback : C) (a : Answer) (c : MqttClient F C)
        → ClientStep c (subscribe topic callback a c).0
    unsubscribed :
        (topic : Text) (a : Answer) (c : MqttClient F C) → ClientStep c (unsubscribe topic a c).0

  pub data ClientReaches : MqttClient F C → MqttClient F C → Type 0 where
    here : (c : MqttClient F C) → ClientReaches c c
    then_step : {a b c : MqttClient F C} → ClientReaches a b → ClientStep b c → ClientReaches a c

  ClientStep-IsAnnounced :
      {c d : MqttClient F C} → ClientStep c d → IsAnnounced answers c → IsAnnounced answers d
  unfolding on_disconnect cleanup
  ClientStep-IsAnnounced (connect_answered rc order c) v =
      on_connect-IsAnnounced answers rc order c v
  ClientStep-IsAnnounced (client_created device_id c) v = record {
    began = v.began;
    noted = v.noted;
  }
  ClientStep-IsAnnounced (disconnected c) v = record { began = v.began; noted = v.noted }
  ClientStep-IsAnnounced (cleaned_up c) v = record { began = v.began; noted = v.noted }
  ClientStep-IsAnnounced (state_published device_id table fields c) v =
      publish_state-IsAnnounced answers device_id table fields c v
  ClientStep-IsAnnounced (discovery_sent e c) v = send_discovery-IsAnnounced int_of answers e c v
  ClientStep-IsAnnounced (subscribed topic callback a c) v =
      subscribe-IsAnnounced answers topic callback a c v
  ClientStep-IsAnnounced (unsubscribed topic a c) v = unsubscribe-IsAnnounced answers topic a c v

  ClientReaches-IsAnnounced :
      {c d : MqttClient F C} → ClientReaches c d → IsAnnounced answers c → IsAnnounced answers d
  ClientReaches-IsAnnounced (here c) v = v
  ClientReaches-IsAnnounced (then_step r s) v =
      ClientStep-IsAnnounced s (ClientReaches-IsAnnounced r v)

  published_state :
      (device_id table : Text) (fields : Dict Text (Value F)) (d : MqttClient F C)
      → is_ready d ≡ true
      → ((publish_state answers device_id table fields d).0.published
          ≡ state_publication d.namespace device_id table fields d.qos d.state_retain
            ∷ (announced answers device_id d).published)
        × ((publish_state answers device_id table fields d).0.availability_online_sent
            ≡ (announced answers device_id d).availability_online_sent)
        × ((publish_state answers device_id table fields d).1
            ≡ is_accepted (answers (length (announced answers device_id d).published)))
  unfolding publish_state publish
  published_state device_id table fields d r =
      elim (Bool-cases (is_accepted (answers (length (announced answers device_id d).published)))) [
        | inl a ↦ rw (r, a) (refl, refl, refl)
        | inr a ↦ rw (r, a) (refl, refl, refl)
      ]

  -- From a client that has not been connected and has noted no device, after any calls and answers,
  -- when it is ready: a call publishes the state, and succeeds exactly when the broker takes it.
  -- Before the state there is an announcement that the device is online which was made since the
  -- connection was made last and did not raise; or the call has tried to announce the device just
  -- before the state, and the device counts as announced afterwards exactly when the broker took
  -- that.
  pub publish_state-IsOnline :
      {c d : MqttClient F C} (device_id table : Text) (fields : Dict Text (Value F))
      → c.availability_online_sent ≡ []
      → c.connected_at ≡ 0
      → ClientReaches c d
      → is_ready d ≡ true
      → let (d', succeeds) = publish_state answers device_id table fields d in
        (ps : List (Publication F)) × (d'.published
          ≡ state_publication d.namespace device_id table fields d.qos d.state_retain ∷ ps)
        × (succeeds ≡ is_accepted (answers (length ps)))
        × (IsOnline answers d.connected_at (availability_topic d.namespace device_id) ps
            ⊎ ((ps ≡ retained (availability_topic d.namespace device_id) online ∷ d.published)
                × (member device_id d'.availability_online_sent
                    ≡ is_accepted (answers (length d.published)))))
  publish_state-IsOnline {c} {d} device_id table fields e first r ready =
      let v =
        ClientReaches-IsAnnounced r
          (record { began = omega (arith, first); noted = λ x m. absurd (ground (arith, m, e)) }) in
      let (w, greeted) =
        announce_state-IsAnnounced answers device_id
          (record d { publish_count = d.publish_count + 1 })
          (record { began = v.began; noted = v.noted }) in
      let (p, q, z) = published_state device_id table fields d ready in
      (
        (announced answers device_id d).published,
        p,
        z,
        elim greeted [ inl o ↦ inl o | inr (l, m) ↦ inr (l, ap (member device_id) q ∙ m) ],
      )
