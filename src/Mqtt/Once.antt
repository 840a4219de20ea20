-- ===== src/Mqtt/Once.antt =====
-- mqtt/client.py: when `send_discovery` publishes, and when it takes an entity for sent.
use oig_proxy.Common.{
  ℕ, suc, ◌≡◌, refl, sym, subst, ap, ◌∙◌, ◌⊎◌, inl, inr, Bool, true, false, Text, text_eq,
  Bool-cases, if◌then◌else◌, length, Option,
}
use oig_proxy.Common.Decimal.{ℤ}
use oig_proxy.Constraints.{is_setting_allowed}
use oig_proxy.Mqtt.{Answer, accepted, refused, is_accepted, MqttClient, member, is_ready}
use oig_proxy.Mqtt.Entities.{Entity}
use oig_proxy.Mqtt.Discovery.{
  unique_id, control_unique_id, is_dual, send_sensor, send_control_config, send_control,
  send_discovery,
}
use oig_proxy.Mqtt.Sending.{
  Keeps, Keeps-trans, publish_config-Keeps, publish_config-sent, publish_config_outcome,
  send_sensor-Keeps,
}

module _ {F C : Type 0} (int_of : Text → Option ℤ) (answers : ℕ → Answer) where
  send_control_config-Keeps :
      (e : Entity) (c : MqttClient F C) → Keeps c (send_control_config int_of answers e c).0
  unfolding send_control_config
  send_control_config-Keeps e c = publish_config-Keeps answers _ _ _ c

  -- An entity that the client takes for sent.
  abbrev Settled : Entity → MqttClient F C → Type 0
  Settled e c =
      (member (unique_id c.namespace e) c.discovery_sent ≡ true)
      ⊎ ((is_setting_allowed e.table e.sensor_key ≡ true)
          × (member (control_unique_id c.namespace e) c.discovery_sent ≡ true)
          × (is_dual e ≡ false))

  Settled-send_discovery :
      (e : Entity) (c : MqttClient F C)
      → is_ready c ≡ true
      → Settled e c
      → send_discovery int_of answers e c ≡ (c, true)
  unfolding send_discovery
  Settled-send_discovery e c r (inl m) = rw (r, m)
  Settled-send_discovery e c r (inr (a, m, d)) =
      elim (Bool-cases (member (unique_id c.namespace e) c.discovery_sent)) [
        | inl u ↦ rw (r, u)
        | inr u ↦ rw (r, u, a) (unfold send_control in rw (m, d))
      ]

  -- The sensor that is sent first makes its entity settled, and so does the control of another.
  sensor_first-Settled :
      (e : Entity) (c : MqttClient F C)
      → (send_sensor answers e c).1 ≡ true
      → Settled e (send_control_config int_of answers e (send_sensor answers e c).0).0
  sensor_first-Settled e c t =
      let k =
        Keeps-trans (send_sensor-Keeps answers e c)
          (send_control_config-Keeps e (send_sensor answers e c).0) in
      inl (
        rw k.namespace (
          (send_control_config-Keeps e (send_sensor answers e c).0).sent _
            (unfold send_sensor in publish_config-sent answers _ _ _ c (unfold send_sensor in t))))

  control-Settled :
      (e : Entity) (c : MqttClient F C)
      → is_setting_allowed e.table e.sensor_key ≡ true
      → is_dual e ≡ false
      → (send_control_config int_of answers e c).1 ≡ true
      → Settled e (send_control_config int_of answers e c).0
  control-Settled e c a d t = inr (
    a,
    rw (send_control_config-Keeps e c).namespace (
        unfold send_control_config in
        publish_config-sent answers _ _ _ c (unfold send_control_config in t)),
    d,
  )

  -- The branches of `send_control`, for an entity whose sensor is not sent.
  dual_sent :
      (e : Entity) (c : MqttClient F C)
      → member (unique_id c.namespace e) c.discovery_sent ≡ false
      → is_dual e ≡ true
      → (send_sensor answers e c).1 ≡ true
      → send_control int_of answers e c
        ≡ send_control_config int_of answers e (send_sensor answers e c).0
  unfolding send_control
  dual_sent e c u d s =
      elim (Bool-cases (member (control_unique_id c.namespace e) c.discovery_sent)) [
        | inl m ↦ rw (m, d, u, s)
        | inr m ↦ rw (m, d, u, s)
      ]

  dual_unsent :
      (e : Entity) (c : MqttClient F C)
      → member (unique_id c.namespace e) c.discovery_sent ≡ false
      → is_dual e ≡ true
      → (send_sensor answers e c).1 ≡ false
      → send_control int_of answers e c ≡ ((send_sensor answers e c).0, false)
  unfolding send_control
  dual_unsent e c u d s =
      elim (Bool-cases (member (control_unique_id c.namespace e) c.discovery_sent)) [
        | inl m ↦ rw (m, d, u, s)
        | inr m ↦ rw (m, d, u, s)
      ]

  single_sent :
      (e : Entity) (c : MqttClient F C)
      → is_dual e ≡ false
      → member (control_unique_id c.namespace e) c.discovery_sent ≡ true
      → send_control int_of answers e c ≡ (c, true)
  unfolding send_control
  single_sent e c d m = rw (m, d)

  single_unsent :
      (e : Entity) (c : MqttClient F C)
      → is_dual e ≡ false
      → member (control_unique_id c.namespace e) c.discovery_sent ≡ false
      → send_control int_of answers e c ≡ send_control_config int_of answers e c
  unfolding send_control
  single_unsent e c d m = rw (m, d)

  -- A result that says that the entity is sent.
  abbrev Sent : Entity → MqttClient F C → MqttClient F C × Bool → Type 0
  Sent e c r = (is_ready r.0 ≡ is_ready c) × (r.1 ≡ true → Settled e r.0)

  send_control-Sent :
      (e : Entity) (c : MqttClient F C)
      → is_setting_allowed e.table e.sensor_key ≡ true
      → member (unique_id c.namespace e) c.discovery_sent ≡ false
      → Sent e c (send_control int_of answers e c)
  send_control-Sent e c a u = elim (Bool-cases (is_dual e)) [
    | inl d ↦ elim (Bool-cases (send_sensor answers e c).1) [
      | inl s ↦ rw (dual_sent e c u d s) (
        (send_control_config-Keeps e (send_sensor answers e c).0).ready
            ∙ (send_sensor-Keeps answers e c).ready,
        λ _. sensor_first-Settled e c s,
      )
      | inr s ↦ rw (dual_unsent e c u d s) ((send_sensor-Keeps answers e c).ready, λ t. cc)
    ]
    | inr d ↦ elim (Bool-cases (member (control_unique_id c.namespace e) c.discovery_sent)) [
      | inl m ↦ rw (single_sent e c d m) (refl, λ _. inr (a, m, d))
      | inr m ↦
          rw (single_unsent e c d m)
            ((send_control_config-Keeps e c).ready, control-Settled e c a d)
    ]
  ]

  send_sensor-Sent : (e : Entity) (c : MqttClient F C) → Sent e c (send_sensor answers e c)
  send_sensor-Sent e c = (
    (send_sensor-Keeps answers e c).ready,
    λ t. inl (
        rw (send_sensor-Keeps answers e c).namespace
          (unfold send_sensor in publish_config-sent answers _ _ _ c (unfold send_sensor in t))),
  )

  abbrev choice : Entity → MqttClient F C → Bool → MqttClient F C × Bool
  choice e c b = if b then send_control int_of answers e c else send_sensor answers e c

  setting_lem :
      (e : Entity) (c : MqttClient F C)
      → is_ready c ≡ true
      → member (unique_id c.namespace e) c.discovery_sent ≡ false
      → send_discovery int_of answers e c ≡ choice e c (is_setting_allowed e.table e.sensor_key)
  unfolding send_discovery
  setting_lem e c r u = rw (r, u)

  send_discovery-Sent :
      (e : Entity) (c : MqttClient F C)
      → is_ready c ≡ true
      → Sent e c (send_discovery int_of answers e c)
  send_discovery-Sent e c r =
      elim (Bool-cases (member (unique_id c.namespace e) c.discovery_sent)) [
        | inl u ↦ rw (Settled-send_discovery e c r (inl u)) (refl, λ _. inl u)
        | inr u ↦ elim (Bool-cases (is_setting_allowed e.table e.sensor_key)) [
          | inl a ↦
              subst (Sent e c) (sym (setting_lem e c r u ∙ ap (choice e c) a))
                (send_control-Sent e c a u)
          | inr a ↦
              subst (Sent e c) (sym (setting_lem e c r u ∙ ap (choice e c) a))
                (send_sensor-Sent e c)
        ]
      ]

  -- Once a call on a connected client says that an entity is sent, the same call changes nothing
  -- and publishes nothing, and says so again.
  pub send_discovery_again :
      (e : Entity) (c : MqttClient F C)
      → is_ready c ≡ true
      → (send_discovery int_of answers e c).1 ≡ true
      → send_discovery int_of answers e (send_discovery int_of answers e c).0
        ≡ ((send_discovery int_of answers e c).0, true)
  send_discovery_again e c r t =
      Settled-send_discovery e (send_discovery int_of answers e c).0
        ((send_discovery-Sent e c r).0 ∙ r) ((send_discovery-Sent e c r).1 t)

  sensor_accepted :
      (e : Entity) (c : MqttClient F C)
      → answers (length c.published) ≡ accepted
      → (send_sensor answers e c).1 ≡ true
  unfolding send_sensor
  sensor_accepted e c yes1 = (publish_config_outcome answers _ _ _ c).0 ∙ ap is_accepted yes1

  control_refused :
      (e : Entity) (c : MqttClient F C)
      → answers (suc (length c.published)) ≡ refused
      → (send_control_config int_of answers e (send_sensor answers e c).0).1 ≡ false
  unfolding send_sensor send_control_config
  control_refused e c no1 =
      (publish_config_outcome answers _ _ _ (send_sensor answers e c).0).0
      ∙ ap (λ (n : ℕ). is_accepted (answers n)) (publish_config_outcome answers _ _ _ c).1
      ∙ ap is_accepted no1

  loses_control :
      (e : Entity) (c : MqttClient F C)
      → is_ready c ≡ true
      → is_dual e ≡ true
      → is_setting_allowed e.table e.sensor_key ≡ true
      → member (unique_id c.namespace e) c.discovery_sent ≡ false
      → answers (length c.published) ≡ accepted
      → send_discovery int_of answers e c
        ≡ send_control_config int_of answers e (send_sensor answers e c).0
  unfolding send_discovery
  loses_control e c r d a u yes1 = rw (r, u, a) (dual_sent e c u d (sensor_accepted e c yes1))

  -- For the mode of the box, which has a sensor beside its control: where neither is sent, and the
  -- broker takes the sensor and not the control, the call says that it failed. The same call then
  -- says that the entity is sent, whatever the broker would answer, and publishes nothing.
  pub send_discovery_loses_control :
      (e : Entity) (c : MqttClient F C)
      → is_ready c ≡ true
      → is_dual e ≡ true
      → is_setting_allowed e.table e.sensor_key ≡ true
      → member (unique_id c.namespace e) c.discovery_sent ≡ false
      → answers (length c.published) ≡ accepted
      → answers (suc (length c.published)) ≡ refused
      → ((send_discovery int_of answers e c).1 ≡ false)
        × (send_discovery int_of answers e (send_discovery int_of answers e c).0
            ≡ ((send_discovery int_of answers e c).0, true))
  send_discovery_loses_control e c r d a u yes1 no1 = rw (loses_control e c r d a u yes1) (
    control_refused e c no1,
    Settled-send_discovery e (send_control_config int_of answers e (send_sensor answers e c).0).0
        ((send_control_config-Keeps e (send_sensor answers e c).0).ready
          ∙ (send_sensor-Keeps answers e c).ready
          ∙ r)
        (sensor_first-Settled e c (sensor_accepted e c yes1)),
  )
