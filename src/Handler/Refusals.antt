-- ===== src/Handler/Refusals.antt =====
-- A request that is refused leaves the queue alone, and its refusal is recorded.
use oig_proxy.Common.{
  ℕ, ◌≡◌, ◌∙◌, ap, sym, subst, refl, inl, inr, Bool, true, false, ◌&&◌, none, some, List, ◌∷◌, map,
  arith, Text, text_eq, Bool-cases, if◌then◌else◌,
}
use oig_proxy.Common.Decimal.{pos}
use oig_proxy.Values.{Floats}
use oig_proxy.Constraints.{is_setting_allowed, Validated, accepted, refused, validate_setting_value}
use oig_proxy.Audit.Steps.{
  SettingStep, incoming, rejected_not_allowed, rejected_validation, SettingResult, pending,
  rejected,
}
use oig_proxy.Audit.Records.{Draw, SettingsAuditRecord, make_incoming_record, make_step_record}
use oig_proxy.Queue.{Draws}
use oig_proxy.Delivery.State.{Delivery}
use oig_proxy.Handler.{
  Json, TwinControlHandler, Request, request, record_setting_audit, incoming_record, record_step,
  apply_validated, apply_request, on_message,
}

-- The step and the result that a record reports.
abbrev pub reports : {F : Type 0} → Delivery F → List (SettingStep × SettingResult)
reports d = map (λ r. (r.step, r.result)) d.emitted

module _ (fl : Floats) where
  open fl use {Float}

  -- The request passes the whitelist and the validation.
  abbrev pub admits : Request Float → Bool
  admits q =
      is_setting_allowed q.table q.key && elim (validate_setting_value fl q.table q.key q.value) [
        | accepted v ↦ true
        | refused why ↦ false
      ]

  module _ (supply : ℕ → Draw) where
    reports-record_step :
        (r : SettingsAuditRecord Float) (step : SettingStep) (result : SettingResult) (raw : Text)
        (d : Delivery Float)
        → let d' = record_step fl supply r step (some result) (some raw) none none d in
          (reports d' ≡ (if d.has_collector then (step, result) ∷ reports d else reports d))
          × (d'.twin_queue ≡ d.twin_queue)
    unfolding record_step record_setting_audit make_step_record
    reports-record_step r step result raw d = ground arith

    reports-incoming :
        (device : Text) (raw : Text) (q : Request Float) (d : Delivery Float)
        → let (r, d') =
            incoming_record fl supply device q.table q.key raw q.value (pos 0) (pos 0) d in
          let d'' = record_setting_audit fl supply r d' in
          (reports d'' ≡ (if d.has_collector then (incoming, pending) ∷ reports d else reports d))
          × (d''.twin_queue ≡ d.twin_queue)
          × (d''.has_collector ≡ d.has_collector)
    unfolding incoming_record record_setting_audit make_incoming_record
    reports-incoming device raw q d = ground arith

    refusal : Bool → SettingStep
    refusal allowed = if allowed then rejected_validation else rejected_not_allowed

    -- what a refusal leaves behind
    abbrev pub IsRefusal :
        Bool
        → TwinControlHandler Float
        → Delivery Float
        → TwinControlHandler Float × Delivery Float
        → Type 0
    IsRefusal allowed h d p =
        (p.0 ≡ h)
        × (p.1.twin_queue ≡ d.twin_queue)
        × (reports p.1 ≡ (
            if d.has_collector
            then (if allowed then rejected_validation else rejected_not_allowed, rejected)
              ∷ (incoming, pending)
              ∷ reports d
            else reports d))

    IsRefusal-after :
        (draws : Draws) (raw : Text) (q : Request Float) (allowed : Bool)
        (r : SettingsAuditRecord Float) (h : TwinControlHandler Float) (d d'' : Delivery Float)
        → (reports d'' ≡ (if d.has_collector then (incoming, pending) ∷ reports d else reports d))
        → (d''.twin_queue ≡ d.twin_queue)
        → (d''.has_collector ≡ d.has_collector)
        → IsRefusal allowed h d (
          h,
          record_step fl supply r
              (if allowed then rejected_validation else rejected_not_allowed)
              (some rejected)
              (some raw)
              none
              none
              d'',
        )
    IsRefusal-after draws raw q allowed r h d d'' e f g =
        let step = if allowed then rejected_validation else rejected_not_allowed in
        let (reps, queue) = reports-record_step r step rejected raw d'' in
        (refl, queue ∙ f, reps ∙ (rw (g, e) (ground arith)))

    validated-refused :
        (draws : Draws) (raw : Text) (q : Request Float) (w : Validated fl)
        (r : SettingsAuditRecord Float) (h : TwinControlHandler Float) (d d'' : Delivery Float)
        → elim w as (λ x. Bool) [ accepted v ↦ true | refused why ↦ false ] ≡ false
        → (reports d'' ≡ (if d.has_collector then (incoming, pending) ∷ reports d else reports d))
        → (d''.twin_queue ≡ d.twin_queue)
        → (d''.has_collector ≡ d.has_collector)
        → IsRefusal true h d (apply_validated fl supply draws r raw q w h d'')
    unfolding apply_validated
    validated-refused draws raw q (accepted v) r h d d'' n e f g = absurd (ground arith)
    validated-refused draws raw q (refused why) r h d d'' n e f g =
        IsRefusal-after draws raw q true r h d d'' e f g

    request-refused :
        (draws : Draws) (raw : Text) (q : Request Float) (h : TwinControlHandler Float)
        (d : Delivery Float)
        → admits q ≡ false
        → IsRefusal (is_setting_allowed q.table q.key) h d (apply_request fl supply draws raw q h d)
    unfolding apply_request
    request-refused draws raw q h d n =
        let (r, d') =
          incoming_record fl supply h.device_id q.table q.key raw q.value (pos 0) (pos 0) d in
        let d'' = record_setting_audit fl supply r d' in
        let (e, f, g) = reports-incoming h.device_id raw q d in
        elim (Bool-cases (is_setting_allowed q.table q.key)) [
          | inl a ↦ rw a (
              validated-refused draws raw q (validate_setting_value fl q.table q.key q.value) r h d
                d'' (ground (arith, a, n)) e f g)
          | inr a ↦ rw a (IsRefusal-after draws raw q false r h d d'' e f g)
        ]

    on_message-request :
        (read_json : Text → Json Float) (draws : Draws) (t raw : Text) (q : Request Float)
        (h : TwinControlHandler Float) (d : Delivery Float)
        → request read_json h.namespace t raw ≡ some q
        → on_message fl supply read_json draws t raw h d ≡ apply_request fl supply draws raw q h d
    unfolding on_message
    on_message-request read_json draws t raw q h d e =
        ap
          (λ o. elim o as (λ _. TwinControlHandler Float × Delivery Float) [
            | none ↦ (h, d)
            | some p ↦ apply_request fl supply draws raw p h d
          ])
          e

    -- A message whose request is not on the whitelist, or whose value is not valid, changes
    -- neither the queue nor the handler; if there is a collector, it is told of the message and
    -- then of its rejection, with the step that names the check that failed.
    pub on_message-refused :
        (read_json : Text → Json Float) (draws : Draws) (t raw : Text) (q : Request Float)
        (h : TwinControlHandler Float) (d : Delivery Float)
        → request read_json h.namespace t raw ≡ some q
        → admits q ≡ false
        → IsRefusal
            (is_setting_allowed q.table q.key)
            h
            d
            (on_message fl supply read_json draws t raw h d)
    on_message-refused read_json draws t raw q h d e n =
        subst (IsRefusal (is_setting_allowed q.table q.key) h d)
          (sym (on_message-request read_json draws t raw q h d e))
          (request-refused draws raw q h d n)
