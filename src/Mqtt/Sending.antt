-- ===== src/Mqtt/Sending.antt =====
-- mqtt/client.py: what the publication of one configuration leaves in the client.
use oig_proxy.Common.{
  ℕ, suc, ◌≡◌, refl, ◌∙◌, arith, inl, inr, true, List, Text, text_eq, Bool-cases, length,
}
use oig_proxy.Common.Dict.{beq_refl}
use oig_proxy.Mqtt.{Answer, is_accepted, Payload, MqttClient, member, insert, is_ready, publish}
use oig_proxy.Mqtt.Entities.{Entity}
use oig_proxy.Mqtt.Discovery.{publish_config, send_sensor}

member-insert : (x : Text) (xs : List Text) → member x (insert x xs) ≡ true
member-insert x xs = elim (Bool-cases (member x xs)) [
  | inl m ↦ rw (m, m)
  | inr m ↦ rw (m, beq_refl x)
]

member-insert_mono :
    (x y : Text) (xs : List Text) → member x xs ≡ true → member x (insert y xs) ≡ true
member-insert_mono x y xs m = elim (Bool-cases (member y xs)) [
  | inl k ↦ rw (k, m)
  | inr k ↦ rw k (ground (arith, m))
]

module _ {F C : Type 0} where
  -- What a call of the discovery leaves alone.
  pub record Keeps (c d : MqttClient F C) : Type 0 where
    pub namespace : d.namespace ≡ c.namespace
    pub ready : is_ready d ≡ is_ready c
    pub sent : (x : Text) → member x c.discovery_sent ≡ true → member x d.discovery_sent ≡ true

  pub Keeps-trans : {a b c : MqttClient F C} → Keeps a b → Keeps b c → Keeps a c
  Keeps-trans k l = record {
    namespace = l.namespace ∙ k.namespace;
    ready = l.ready ∙ k.ready;
    sent = λ x m. l.sent x (k.sent x m);
  }

module _ {F C : Type 0} (answers : ℕ → Answer) where
  pub publish_config-Keeps :
      (component id : Text) (p : Payload F) (c : MqttClient F C)
      → Keeps c (publish_config answers component id p c).0
  unfolding publish_config publish
  publish_config-Keeps component id p c =
      elim (Bool-cases (is_accepted (answers (length c.published)))) [
        | inl a ↦ rw a (record {
          namespace = refl;
          ready = refl;
          sent = λ x m. member-insert_mono x id c.discovery_sent m;
        })
        | inr a ↦ rw a (record { namespace = refl; ready = refl; sent = λ x m. m })
      ]

  pub publish_config-sent :
      (component id : Text) (p : Payload F) (c : MqttClient F C)
      → (publish_config answers component id p c).1 ≡ true
      → member id (publish_config answers component id p c).0.discovery_sent ≡ true
  unfolding publish_config publish
  publish_config-sent component id p c t =
      elim (Bool-cases (is_accepted (answers (length c.published)))) [
        | inl a ↦ rw a (member-insert id c.discovery_sent)
        | inr a ↦ absurd (ground (arith, a, t))
      ]

  pub publish_config_outcome :
      (component id : Text) (p : Payload F) (c : MqttClient F C)
      → ((publish_config answers component id p c).1 ≡ is_accepted (answers (length c.published)))
        × (length (publish_config answers component id p c).0.published ≡ suc (length c.published))
  unfolding publish_config publish
  publish_config_outcome component id p c =
      elim (Bool-cases (is_accepted (answers (length c.published)))) [
        | inl a ↦ rw a (refl, refl)
        | inr a ↦ rw a (refl, refl)
      ]

  pub send_sensor-Keeps : (e : Entity) (c : MqttClient F C) → Keeps c (send_sensor answers e c).0
  unfolding send_sensor
  send_sensor-Keeps e c = publish_config-Keeps _ _ _ c
