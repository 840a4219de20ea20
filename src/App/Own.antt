-- ===== src/App/Own.antt =====
-- main.py: once the id of the box is known, the frames of other devices change nothing.
use oig_proxy.Common.{
  ℕ, ◌≡◌, refl, ap, ◌∙◌, inl, inr, Bool, false, not, Option, none, some, List, [], ◌∷◌, Text, codes,
  ◌==◌, text_eq, Bool-cases, if◌then◌else◌,
}
use oig_proxy.Common.Keeps.{keep-if, keep-option}
use oig_proxy.Common.Dict.{Dict}
use oig_proxy.Values.{Floats, Value}
use oig_proxy.Mqtt.{Answer}
use oig_proxy.Sensors.Fields.{Python}
use oig_proxy.App.{
  ProxyApp, learn, record_status, publish_frame, accept_frame, accept_table, device_of, table_of,
  on_frame, on_frames,
}

module _ (fl : Floats) where
  -- The frames of one device.
  unfoldable pub own :
      Text
      → List (Bool × ℕ × Dict Text (Value fl.Float))
      → List (Bool × ℕ × Dict Text (Value fl.Float))
  own d [] = []
  own d ((written, now, fields) ∷ frames) =
      let rest = own d frames in
      if d == device_of fl fields then (written, now, fields) ∷ rest else rest

module _ (fl : Floats) (py : Python fl.Float) {C : Type 0} (answers : ℕ → Answer) (d : Text) where
  open fl use {Float}

  record_status-device :
      (now : ℕ) (device_id table : Text) (a : ProxyApp Float C)
      → (record_status now device_id table a).device_id ≡ a.device_id
  unfolding record_status
  record_status-device now device_id table a =
      keep-option (λ (x : ProxyApp Float C). x.device_id ≡ a.device_id) a.status_publisher refl
        (λ s. refl)

  publish_frame-device :
      (device_id table : Text) (fields : Dict Text (Value Float)) (a : ProxyApp Float C)
      → (publish_frame fl py answers device_id table fields a).device_id ≡ a.device_id
  unfolding publish_frame
  publish_frame-device device_id table fields a =
      keep-if (λ (x : ProxyApp Float C). x.device_id ≡ a.device_id) _ refl refl

  -- With a known id: a frame of another device changes nothing, and the id stays.
  accept_frame-known :
      (written : Bool) (now : ℕ) (device_id table : Text) (fields : Dict Text (Value Float))
      (a : ProxyApp Float C)
      → a.device_id ≡ some d
      → accept_frame fl py answers written now device_id table fields a ≡ (
          if not (d == device_id)
          then a
          else publish_frame fl py answers device_id table fields
              (record_status now device_id table a))
  unfolding accept_frame
  accept_frame-known written now device_id table fields a k =
      ap
        (λ (o : Option Text). elim o as (λ (o' : Option Text). ProxyApp Float C) [
          | none ↦
              publish_frame fl py answers device_id table fields
                (learn written now device_id table a)
          | some d' ↦
              if not (d' == device_id)
              then a
              else publish_frame fl py answers device_id table fields
                  (record_status now device_id table a)
        ])
        k

  -- A result that keeps the id, and is the old state where the frame is of another device.
  abbrev IsFor : Bool → ProxyApp Float C → ProxyApp Float C → Type 0
  IsFor same a b = (b.device_id ≡ a.device_id) × (same ≡ false → b ≡ a)

  accept_frame-IsFor :
      (written : Bool) (now : ℕ) (device_id table : Text) (fields : Dict Text (Value Float))
      (a : ProxyApp Float C)
      → a.device_id ≡ some d
      → IsFor (d == device_id) a (accept_frame fl py answers written now device_id table fields a)
  accept_frame-IsFor written now device_id table fields a k =
      rw (accept_frame-known written now device_id table fields a k)
        (elim (Bool-cases (d == device_id)) [
          | inl e ↦ rw e (
            publish_frame-device device_id table fields (record_status now device_id table a)
                ∙ record_status-device now device_id table a,
            λ f. cc,
          )
          | inr e ↦ rw e (refl, λ f. refl)
        ])

  accept_table-IsFor :
      (written : Bool) (now : ℕ) (device_id table : Text) (fields : Dict Text (Value Float))
      (a : ProxyApp Float C)
      → a.device_id ≡ some d
      → IsFor (d == device_id) a (accept_table fl py answers written now device_id table fields a)
  unfolding accept_table
  accept_table-IsFor written now device_id table fields a k =
      keep-if (λ (b : ProxyApp Float C). IsFor (d == device_id) a b) _
        (accept_frame-IsFor written now device_id (codes "tbl_actual") _ a k)
        (accept_frame-IsFor written now device_id table fields a k)

  on_frame-IsFor :
      (written : Bool) (now : ℕ) (fields : Dict Text (Value Float)) (a : ProxyApp Float C)
      → a.device_id ≡ some d
      → IsFor (d == device_of fl fields) a (on_frame fl py answers written now fields a)
  unfolding on_frame
  on_frame-IsFor written now fields a k =
      keep-if (λ (b : ProxyApp Float C). IsFor (d == device_of fl fields) a b) _ (refl, λ f. refl)
        (accept_table-IsFor written now (device_of fl fields) (table_of fl fields) fields a k)

  -- Once the id of the box is known: whatever frames arrive, the app is then as if only the frames
  -- of this device had arrived, and the id is the same.
  pub on_frames-own :
      (frames : List (Bool × ℕ × Dict Text (Value Float))) (a : ProxyApp Float C)
      → a.device_id ≡ some d
      → (on_frames fl py answers frames a ≡ on_frames fl py answers (own fl d frames) a)
        × ((on_frames fl py answers frames a).device_id ≡ some d)
  unfolding on_frames own
  on_frames-own [] a k = (refl, k)
  on_frames-own ((written, now, fields) ∷ frames) a k =
      let (stays, foreign) = on_frame-IsFor written now fields a k in
      let (same, id) =
        on_frames-own frames (on_frame fl py answers written now fields a) (stays ∙ k) in
      (
        elim (Bool-cases (d == device_of fl fields)) [
          | inl e ↦ rw e same
          | inr e ↦ rw e (
              same
              ∙ ap (λ (b : ProxyApp Float C). on_frames fl py answers (own fl d frames) b)
                  (foreign e))
        ],
        id,
      )
