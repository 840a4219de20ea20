-- ===== src/Mqtt/Online.antt =====
-- mqtt/client.py: a device's state is published after the device has been announced as online.
use oig_proxy.Common.{
  ℕ, zero, suc, ◌+◌, ◌≡◌, ◌≤◌, refl, sym, subst, arith, ◌⊎◌, inl, inr, Bool, true, false, not, ◌&&◌,
  List, [], ◌∷◌, Text, ◌==◌, text_eq, text_beq_iff, Bool-cases, if◌then◌else◌, length, Option,
}
use oig_proxy.Common.Keeps.{keep-if}
use oig_proxy.Common.Dict.{Dict, beq_refl}
use oig_proxy.Common.Decimal.{ℤ}
use oig_proxy.Values.{Value}
use oig_proxy.Mqtt.{
  Answer, is_accepted, Payload, accepted, refused, raised, is_raised, online, Publication,
  MqttClient, member, insert, is_ready, publish, retained, availability_topic, state_publication,
  legacy_discovery_tombstones, remove_legacy_discovery, note_online, announce, connection,
  on_connect, announce_state, publish_state, subscribe, unsubscribe,
}
use oig_proxy.Constraints.{is_setting_allowed}
use oig_proxy.Mqtt.Entities.{Entity}
use oig_proxy.Mqtt.Discovery.{
  publish_config, send_sensor, send_control_config, send_control, send_discovery, is_dual,
  unique_id,
}

module _ {F : Type 0} (answers : ℕ → Answer) where
  -- One of the publications, that of this number or a later one, announces that the topic's device
  -- is online, and the call for it has not raised.
  abbrev pub IsOnline : ℕ → Text → List (Publication F) → Type 0
  IsOnline n t [] = ⊥
  IsOnline n t (p ∷ ps) =
      (p.topic ≡ t)
        × (p.payload ≡ online)
        × (n ≤ length ps)
        × (is_raised (answers (length ps)) ≡ false)
      ⊎ IsOnline n t ps

accepted-quiet : (a : Answer) → is_accepted a ≡ true → is_raised a ≡ false
accepted-quiet accepted e = refl
accepted-quiet refused e = refl
accepted-quiet raised e = absurd (ground arith)

member-cons_inv :
    (x y : Text) (xs : List Text) → member x (y ∷ xs) ≡ true → (x ≡ y) ⊎ (member x xs ≡ true)
member-cons_inv x y xs m = elim (Bool-cases (y == x)) [
  | inl e ↦ inl (sym ((text_beq_iff y x).0 e))
  | inr e ↦ inr (ground (arith, e, m))
]

member-insert_inv :
    (x y : Text) (xs : List Text) → member x (insert y xs) ≡ true → (x ≡ y) ⊎ (member x xs ≡ true)
member-insert_inv x y xs m = elim (Bool-cases (member y xs)) [
  | inl k ↦ inr (rw k at m)
  | inr k ↦ member-cons_inv x y xs (rw k at m)
]

module _ {F C : Type 0} (answers : ℕ → Answer) where
  -- Every device that the client has noted as online has been announced in its connection.
  pub record IsAnnounced (c : MqttClient F C) : Type 0 where
    pub began : c.connected_at ≤ length c.published
    pub noted :
        (x : Text)
        → member x c.availability_online_sent ≡ true
        → IsOnline answers c.connected_at (availability_topic c.namespace x) c.published

  noted_more :
      (c : MqttClient F C) (p : Publication F)
      → IsAnnounced c
      → IsAnnounced (record c { published = p ∷ c.published })
  noted_more c p v = record { began = ground (arith, v.began); noted = λ x m. inr (v.noted x m) }

  -- One more device is noted, which has been announced.
  note_device :
      (c : MqttClient F C) (device_id : Text) (xs : List Text)
      → ((x : Text)
          → member x xs ≡ true
          → (x ≡ device_id) ⊎ (member x c.availability_online_sent ≡ true))
      → IsAnnounced c
      → IsOnline answers c.connected_at (availability_topic c.namespace device_id) c.published
      → IsAnnounced (record c { availability_online_sent = xs })
  note_device c device_id xs from v o = record {
    began = v.began;
    noted = λ x m. elim (from x m) [
      | inl e ↦
          subst
            (λ (y : Text).
              IsOnline answers c.connected_at (availability_topic c.namespace y) c.published)
            (sym e) o
      | inr k ↦ v.noted x k
    ];
  }

  pub subscribe-IsAnnounced :
      (topic : Text) (callback : C) (a : Answer) (c : MqttClient F C)
      → IsAnnounced c
      → IsAnnounced (subscribe topic callback a c).0
  unfolding subscribe
  subscribe-IsAnnounced topic callback a c v = elim (Bool-cases (is_ready c)) [
    | inl r ↦ rw r (record { began = v.began; noted = v.noted })
    | inr r ↦ rw r v
  ]

  pub unsubscribe-IsAnnounced :
      (topic : Text) (a : Answer) (c : MqttClient F C)
      → IsAnnounced c
      → IsAnnounced (unsubscribe topic a c).0
  unfolding unsubscribe
  unsubscribe-IsAnnounced topic a c v = elim (Bool-cases (is_ready c)) [
    | inl r ↦ rw r (record { began = v.began; noted = v.noted })
    | inr r ↦ rw r v
  ]

  remove_legacy_discovery-IsAnnounced :
      (ts : List (Text × Text × Text × Text)) (device_id : Text) (c : MqttClient F C)
      → IsAnnounced c
      → IsAnnounced (remove_legacy_discovery answers ts device_id c)
  unfolding remove_legacy_discovery publish
  remove_legacy_discovery-IsAnnounced [] device_id c v = v
  remove_legacy_discovery-IsAnnounced ((k, table, key, suffix) ∷ ts) device_id c v =
      keep-if (λ (x : MqttClient F C). IsAnnounced x) _ (noted_more c _ v)
        (remove_legacy_discovery-IsAnnounced ts device_id _ (noted_more c _ v))

  announce-IsAnnounced :
      (ds : List Text) (c : MqttClient F C) → IsAnnounced c → IsAnnounced (announce answers ds c).0
  unfolding announce publish note_online
  announce-IsAnnounced [] c v = v
  announce-IsAnnounced (d ∷ ds) c v =
      let p : Publication F = retained (availability_topic c.namespace d) online in
      let w = noted_more c p v in
      elim (Bool-cases (is_raised (answers (length c.published)))) [
        | inl e ↦ rw e w
        | inr e ↦ rw e (
            announce-IsAnnounced ds _ (
              note_device (record c { published = p ∷ c.published }) d _
                (λ x m. member-insert_inv x d c.availability_online_sent m) w
                (inl (refl, refl, v.began, e))))
      ]

  pub on_connect-IsAnnounced :
      (rc : ℕ) (order : List Text → List Text) (c : MqttClient F C)
      → IsAnnounced c
      → IsAnnounced (on_connect answers rc order c)
  unfolding on_connect connection
  on_connect-IsAnnounced zero order c v =
      let w =
        announce-IsAnnounced (order (insert c.connect_device_id c.all_known_device_ids))
          (connection c)
          (record { began = omega arith; noted = λ x m. absurd (ground (arith, m)) }) in
      keep-if (λ (x : MqttClient F C). IsAnnounced x) _
        (remove_legacy_discovery-IsAnnounced legacy_discovery_tombstones c.connect_device_id _ w) w
  on_connect-IsAnnounced (suc rc) order c v = record { began = v.began; noted = v.noted }

  -- Before the state of a device: an announcement of its connection, or one that was made just now,
  -- which is noted exactly when the broker takes it.
  abbrev pub IsGreeted : Text → MqttClient F C → MqttClient F C → Type 0
  IsGreeted device_id c d =
      IsOnline answers c.connected_at (availability_topic c.namespace device_id) d.published
      ⊎ ((d.published ≡ retained (availability_topic c.namespace device_id) online ∷ c.published)
          × (member device_id d.availability_online_sent
              ≡ is_accepted (answers (length c.published))))

  pub announce_state-IsAnnounced :
      (device_id : Text) (c : MqttClient F C)
      → IsAnnounced c
      → IsAnnounced (announce_state answers device_id c)
        × IsGreeted device_id c (announce_state answers device_id c)
  unfolding announce_state publish
  announce_state-IsAnnounced device_id c v =
      let p : Publication F = retained (availability_topic c.namespace device_id) online in
      let w = noted_more c p v in
      elim (Bool-cases (member device_id c.availability_online_sent)) [
        | inl m ↦ rw m (v, inl (v.noted device_id m))
        | inr m ↦ elim (Bool-cases (is_accepted (answers (length c.published)))) [
          | inl a ↦
              let w' =
                note_device (record c { published = p ∷ c.published }) device_id
                  (device_id ∷ c.availability_online_sent)
                  (λ x k. member-cons_inv x device_id c.availability_online_sent k) w
                  (inl (refl, refl, v.began, accepted-quiet (answers (length c.published)) a)) in
              rw (m, a)
                (
                  record { began = w'.began; noted = w'.noted },
                  inr (refl, ground (arith, beq_refl device_id)),
                )
          | inr a ↦ rw (m, a) (w, inr (refl, m))
        ]
      ]

  -- The client with the announcement of the device, where it is needed.
  abbrev pub announced : Text → MqttClient F C → MqttClient F C
  announced device_id c =
      announce_state answers device_id (record c { publish_count = c.publish_count + 1 })

  state_noted :
      (device_id table : Text) (fields : Dict Text (Value F)) (c : MqttClient F C)
      → IsAnnounced c
      → IsAnnounced (record (announced device_id c) {
        published =
            state_publication c.namespace device_id table fields c.qos c.state_retain
            ∷ (announced device_id c).published;
      })
  state_noted device_id table fields c v =
      noted_more (announced device_id c) _
        (announce_state-IsAnnounced device_id (record c { publish_count = c.publish_count + 1 })
          (record { began = v.began; noted = v.noted })).0

  pub publish_state-IsAnnounced :
      (device_id table : Text) (fields : Dict Text (Value F)) (c : MqttClient F C)
      → IsAnnounced c
      → IsAnnounced (publish_state answers device_id table fields c).0
  unfolding publish_state publish
  publish_state-IsAnnounced device_id table fields c v = elim (Bool-cases (is_ready c)) [
    | inr r ↦ rw r (record { began = v.began; noted = v.noted })
    | inl r ↦ elim (Bool-cases (is_accepted (answers (length (announced device_id c).published)))) [
      | inl a ↦
          let w = state_noted device_id table fields c v in
          rw (r, a) (record { began = w.began; noted = w.noted })
      | inr a ↦
          let w = state_noted device_id table fields c v in
          rw (r, a) (record { began = w.began; noted = w.noted })
    ]
  ]

  publish_config-IsAnnounced :
      (component id : Text) (p : Payload F) (c : MqttClient F C)
      → IsAnnounced c
      → IsAnnounced (publish_config answers component id p c).0
  unfolding publish_config publish
  publish_config-IsAnnounced component id p c v =
      elim (Bool-cases (is_accepted (answers (length c.published)))) [
        | inl a ↦
            rw a (record { began = ground (arith, v.began); noted = λ x m. inr (v.noted x m) })
        | inr a ↦
            rw a (record { began = ground (arith, v.began); noted = λ x m. inr (v.noted x m) })
      ]

module _ {F C : Type 0} (int_of : Text → Option ℤ) (answers : ℕ → Answer) where
  abbrev Left : MqttClient F C × Bool → Type 0
  Left r = IsAnnounced answers r.0

  -- The sensor of the mode, where it is to be sent first.
  abbrev tried : Entity → MqttClient F C → MqttClient F C × Bool
  tried e c =
      if is_dual e && not (member (unique_id c.namespace e) c.discovery_sent)
      then send_sensor answers e c
      else (c, true)

  tried-IsAnnounced :
      (e : Entity) (c : MqttClient F C) → IsAnnounced answers c → IsAnnounced answers (tried e c).0
  unfolding send_sensor
  tried-IsAnnounced e c v =
      keep-if (λ (r : MqttClient F C × Bool). Left r) _
        (publish_config-IsAnnounced answers _ _ _ c v) v

  send_control-IsAnnounced :
      (e : Entity) (c : MqttClient F C)
      → IsAnnounced answers c
      → IsAnnounced answers (send_control int_of answers e c).0
  unfolding send_control send_control_config send_sensor
  send_control-IsAnnounced e c v =
      keep-if (λ (r : MqttClient F C × Bool). Left r) _ v
        (keep-if (λ (r : MqttClient F C × Bool). Left r) (tried e c).1
          (publish_config-IsAnnounced answers _ _ _ (tried e c).0 (tried-IsAnnounced e c v))
          (tried-IsAnnounced e c v))

  pub send_discovery-IsAnnounced :
      (e : Entity) (c : MqttClient F C)
      → IsAnnounced answers c
      → IsAnnounced answers (send_discovery int_of answers e c).0
  unfolding send_discovery
  send_discovery-IsAnnounced e c v = elim (Bool-cases (is_ready c)) [
    | inr r ↦ rw r v
    | inl r ↦ elim (Bool-cases (member (unique_id c.namespace e) c.discovery_sent)) [
      | inl u ↦ rw (r, u) v
      | inr u ↦ elim (Bool-cases (is_setting_allowed e.table e.sensor_key)) [
        | inl a ↦ rw (r, u, a) (send_control-IsAnnounced e c v)
        | inr a ↦ rw (r, u, a) (unfold send_sensor in publish_config-IsAnnounced answers _ _ _ c v)
      ]
    ]
  ]
