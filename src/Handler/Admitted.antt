-- ===== src/Handler/Admitted.antt =====
-- Only settings that are allowed and within their bounds enter the queue, and so only those are
-- delivered to the box.
use oig_proxy.Common.{
  ℕ, ◌≤◌, ◌≡◌, refl, sym, subst, inl, inr, true, Option, some, arith, Text, codes, text_eq, pair_eq,
  Holds, Bool-cases,
}
use oig_proxy.Common.Dict
use oig_proxy.Common.Dict.{Dict, values}
use oig_proxy.Common.Decimal.{ℤ, pos}
use oig_proxy.Common.Keeps.{keep-if, keep-option}
use oig_proxy.Values.{Floats, ExactComparison, Value, int}
use oig_proxy.Constraints.{
  is_setting_allowed, setting_constraints, Validated, accepted, refused, validate_setting_value,
}
use oig_proxy.Constraints.Bounds.{closed, validate_setting_value_iff}
use oig_proxy.Audit.Records.{Draw, SettingsAuditRecord}
use oig_proxy.Queue
use oig_proxy.Queue.{TwinSetting, TwinQueue, Draws, new_setting}
use oig_proxy.Delivery.State.{Delivery}
use oig_proxy.Handler.{
  Json, TwinControlHandler, Request, request, record_setting_audit, incoming_record, record_step,
  enqueue_setting, apply_accepted, apply_validated, apply_request, on_message, proxy_control,
}
use oig_proxy.Handler.Lemmas.{put-Holds, queue-record_step, queue-enqueue_setting}

module _ (fl : Floats) (exact : ExactComparison fl) where
  open fl use {Float}

  -- The setting is one that the whitelist allows, and its value is an integer within its bounds.
  abbrev pub IsAdmitted : TwinSetting Float → Type 0
  IsAdmitted s =
      (is_setting_allowed s.table s.key ≡ true)
      × (lo : ℕ) × (hi : ℕ) × (step : Option ℕ) × (n : ℕ) × (Dict.get (s.table, s.key)
            setting_constraints
          ≡ some (closed lo hi step))
      × (lo ≤ n)
      × (n ≤ hi)
      × (s.value ≡ int (pos n))

  abbrev pub AllAdmitted : Dict (Text × Text) (TwinSetting Float) → Type 0
  AllAdmitted q = Holds IsAdmitted (values q)

  accepted-IsAdmitted :
      (table key : Text) (v u : Value Float)
      → is_setting_allowed table key ≡ true
      → validate_setting_value fl table key v ≡ accepted u
      → (s : TwinSetting Float) → s.table ≡ table
      → s.key ≡ key
      → s.value ≡ u
      → IsAdmitted s
  accepted-IsAdmitted table key v u allowed valid s t k w =
      let (lo, hi, step, bounds, iff) = validate_setting_value_iff fl exact table key v u allowed in
      let (x, n, parsed, whole, same, above, below, is_n) = iff.0 valid in
      (rw (t, k) allowed, lo, hi, step, n, rw (t, k) bounds, above, below, rw w is_n)

  module _ (supply : ℕ → Draw) where
    enqueue-AllAdmitted :
        (device : Text) (draws : Draws) (r : SettingsAuditRecord Float) (table key : Text)
        (v u : Value Float) (d : Delivery Float)
        → is_setting_allowed table key ≡ true
        → validate_setting_value fl table key v ≡ accepted u
        → AllAdmitted d.twin_queue.queue
        → AllAdmitted (enqueue_setting fl supply device draws r table key u d).twin_queue.queue
    unfolding Queue.enqueue new_setting
    enqueue-AllAdmitted device draws r table key v u d allowed valid c =
        let s : TwinSetting Float =
          new_setting draws table key u (codes "New") r.audit_id r.raw_text
            d.twin_queue.next_id_set in
        subst (λ q. AllAdmitted q.queue)
          (sym (queue-enqueue_setting fl supply device draws r table key u d))
          (put-Holds IsAdmitted (table, key) s d.twin_queue.queue
            (accepted-IsAdmitted table key v u allowed valid s refl refl refl) c)

    step-AllAdmitted :
        (r : SettingsAuditRecord Float) (step : _) (result : _) (raw : Option Text)
        (msg set : Option ℤ) (d : Delivery Float)
        → AllAdmitted d.twin_queue.queue
        → AllAdmitted (record_step fl supply r step result raw msg set d).twin_queue.queue
    step-AllAdmitted r step result raw msg set d c =
        subst (λ q. AllAdmitted q.queue)
          (sym (queue-record_step fl supply r step result raw msg set d)) c

    accepted-AllAdmitted :
        (draws : Draws) (r : SettingsAuditRecord Float) (table key : Text) (v u : Value Float)
        (h : TwinControlHandler Float) (d : Delivery Float)
        → is_setting_allowed table key ≡ true
        → validate_setting_value fl table key v ≡ accepted u
        → AllAdmitted d.twin_queue.queue
        → AllAdmitted (apply_accepted fl supply draws r table key u h d).1.twin_queue.queue
    unfolding apply_accepted
    accepted-AllAdmitted draws r table key v u h d allowed valid c =
        keep-if
          (λ (p : TwinControlHandler Float × Delivery Float). AllAdmitted p.1.twin_queue.queue)
          (proxy_control fl supply table key u h).1 c
          (enqueue-AllAdmitted h.device_id draws r table key v u d allowed valid c)

    validated-AllAdmitted :
        (draws : Draws) (r : SettingsAuditRecord Float) (raw : Text) (q : Request Float)
        (w : Validated fl) (h : TwinControlHandler Float) (d : Delivery Float)
        → is_setting_allowed q.table q.key ≡ true
        → validate_setting_value fl q.table q.key q.value ≡ w
        → AllAdmitted d.twin_queue.queue
        → AllAdmitted (apply_validated fl supply draws r raw q w h d).1.twin_queue.queue
    unfolding apply_validated
    validated-AllAdmitted draws r raw q (accepted u) h d allowed valid c =
        accepted-AllAdmitted draws r q.table q.key q.value u h d allowed valid c
    validated-AllAdmitted draws r raw q (refused why) h d allowed valid c =
        step-AllAdmitted _ _ _ _ _ _ d c

    -- the state behind the record of the message itself
    received : Text → Request Float → TwinControlHandler Float → Delivery Float → Delivery Float
    received raw q h d =
        let (r, d') =
          incoming_record fl supply h.device_id q.table q.key raw q.value (pos 0) (pos 0) d in
        record_setting_audit fl supply r d'

    queue-received :
        (raw : Text) (q : Request Float) (h : TwinControlHandler Float) (d : Delivery Float)
        → (received raw q h d).twin_queue ≡ d.twin_queue
    unfolding received incoming_record record_setting_audit
    queue-received raw q h d = ground arith

    request-AllAdmitted :
        (draws : Draws) (raw : Text) (q : Request Float) (h : TwinControlHandler Float)
        (d : Delivery Float)
        → AllAdmitted d.twin_queue.queue
        → AllAdmitted (apply_request fl supply draws raw q h d).1.twin_queue.queue
    unfolding apply_request received
    request-AllAdmitted draws raw q h d c =
        let c' : AllAdmitted (received raw q h d).twin_queue.queue =
          subst (λ s. AllAdmitted s.queue) (sym (queue-received raw q h d)) c in
        elim (Bool-cases (is_setting_allowed q.table q.key)) [
          | inl e ↦ rw e (validated-AllAdmitted draws _ raw q _ h _ e refl c')
          | inr e ↦ rw e (step-AllAdmitted _ _ _ _ _ _ _ c')
        ]

    -- A message leaves only admitted settings in a queue that held no others before.
    pub on_message-AllAdmitted :
        (read_json : Text → Json Float) (draws : Draws) (t raw : Text)
        (h : TwinControlHandler Float) (d : Delivery Float)
        → AllAdmitted d.twin_queue.queue
        → AllAdmitted (on_message fl supply read_json draws t raw h d).1.twin_queue.queue
    unfolding on_message
    on_message-AllAdmitted read_json draws t raw h d c =
        keep-option
          (λ (p : TwinControlHandler Float × Delivery Float). AllAdmitted p.1.twin_queue.queue)
          (request read_json h.namespace t raw) c λ q. request-AllAdmitted draws raw q h d c
