-- ===== src/Delivery/Terminal.antt =====
-- How often the end of a setting's life is reported.
use oig_proxy.Common.{
  ℕ, suc, ◌+◌, ◌≤◌, ◌≡◌, inl, inr, refl, subst, Bool, true, false, not, ◌&&◌, ◌||◌, Option, none,
  some, List, [], ◌∷◌, arith, Text, codes, ◌==◌, nat_beq, text_eq, text_beq_iff, Bool-cases,
  if◌then◌else◌,
}
use oig_proxy.Common.Dict
use oig_proxy.Common.Dict.{Dict, get-put, beq_refl}
use oig_proxy.Values.{Floats, Value}
use oig_proxy.Audit.Steps.{
  SettingStep, SettingResult, is_terminal, is_final, precedence, is_stronger_ack, result_is_pending,
}
use oig_proxy.Audit.Records.{Draw, SettingsAuditRecord, result_of, make_step_record}
use oig_proxy.Queue.{TwinSetting}
use oig_proxy.Delivery.State.{Delivery, record_audit_step, emit_step, is_weaker}

-- The record reports the end of the life of the setting with that audit id.
abbrev pub is_closing : {F : Type 0} → Text → SettingsAuditRecord F → Bool
is_closing id r = r.audit_id == id && is_terminal r.step && not (result_is_pending r.result)

abbrev pub closings : {F : Type 0} → Text → List (SettingsAuditRecord F) → ℕ
closings id [] = 0
closings id (r ∷ rs) = if is_closing id r then suc (closings id rs) else closings id rs

-- How many such records the step that was recorded last allows.
pub rank : Option SettingStep → ℕ
rank none = 0
rank (some s) = if nat_beq (precedence s) 0 then 1 else precedence s

pub record IsCounted {F : Type 0} (d : Delivery F) : Type 0 where
  pub at : (id : Text) → closings id d.emitted ≤ rank (Dict.get id d.recorded_terminal)

pub rank-le : (s : Option SettingStep) → rank s ≤ 3
unfolding rank precedence
rank-le none = omega arith
rank-le (some s) = ground arith

-- A step that is stronger than the one before has a higher rank, if it is terminal.
rank-stronger :
    (step e : SettingStep)
    → is_terminal step ≡ true
    → is_stronger_ack step e ≡ true
    → rank (some e) + 1 ≤ rank (some step)
unfolding rank is_terminal is_stronger_ack
rank-stronger step e t h = ground arith

rank-terminal : (step : SettingStep) → 1 ≤ rank (some step)
unfolding rank precedence
rank-terminal step = ground arith

result_of-final :
    (r : Option SettingResult) (step : SettingStep)
    → is_terminal step ≡ true
    → is_final r ≡ false
    → result_is_pending (result_of r step) ≡ true
unfolding is_final result_of result_is_pending is_terminal
result_of-final none step t h = absurd (ground arith)
result_of-final (some r) step t h = ground arith

abbrev weaker : SettingStep → Option SettingStep → Bool
weaker step g = elim g [ none ↦ false | some existing ↦ not (is_stronger_ack step existing) ]

rank-rise :
    (step : SettingStep) (g : Option SettingStep)
    → is_terminal step ≡ true
    → weaker step g ≡ false
    → rank g + 1 ≤ rank (some step)
rank-rise step none t w = unfold rank precedence in ground arith
rank-rise step (some e) t w = rank-stronger step e t (ground arith)

closing-rank :
    {F : Type 0} (id aid : Text) (a : SettingsAuditRecord F) (step : SettingStep)
    (l : List (SettingsAuditRecord F)) (g : Option SettingStep)
    → a.audit_id ≡ aid
    → closings id l ≤ rank g
    → (aid ≡ id → rank g + 1 ≤ rank (some step))
    → closings id (a ∷ l) ≤ rank (if aid == id then some step else g)
closing-rank id aid a step l g e c rise = elim (Bool-cases (aid == id)) [
  | inl y ↦ rw y (ground (arith, rise ((text_beq_iff aid id).0 y)))
  | inr y ↦ rw y (ground (arith, e, y, c))
]

module _ (fl : Floats) (supply : ℕ → Draw) where
  open fl use {Float}

  emit_step-head :
      (s : TwinSetting Float) (device : Text) (step : SettingStep) (r : Option SettingResult)
      (v : Value Float) (raw : Option Text) (session : Text) (d : Delivery Float)
      → (a : SettingsAuditRecord Float) × ((emit_step fl supply s device step r v raw session
            d).emitted
          ≡ a ∷ d.emitted)
        × (a.audit_id ≡ s.audit_id)
        × (a.step ≡ step)
        × (a.result ≡ result_of r step)
        × ((emit_step fl supply s device step r v raw session d).recorded_terminal
            ≡ d.recorded_terminal)
  unfolding emit_step make_step_record
  emit_step-head s device step r v raw session d = (_, refl, refl, refl, refl, refl)

  emit_step-open :
      (s : TwinSetting Float) (device : Text) (step : SettingStep) (r : Option SettingResult)
      (v : Value Float) (raw : Option Text) (session : Text) (d : Delivery Float)
      → (is_terminal step && is_final r) ≡ false
      → IsCounted d
      → IsCounted (emit_step fl supply s device step r v raw session d)
  emit_step-open s device step r v raw session d h c = record {
    at = λ id.
        let (a, e, i, st, re, rec) = emit_step-head s device step r v raw session d in
        rw (e, rec) (ground (arith, i, st, re, h, c.at id, result_of-final r step));
  }

  emit_step-closing :
      (s : TwinSetting Float) (device : Text) (step : SettingStep) (r : Option SettingResult)
      (v : Value Float) (raw : Option Text) (session : Text) (d : Delivery Float)
      → is_terminal step ≡ true
      → is_weaker fl supply s.audit_id step d ≡ false
      → IsCounted d
      → IsCounted (
          emit_step fl supply s device step r v raw session
            (record d { recorded_terminal = Dict.put s.audit_id step d.recorded_terminal }))
  unfolding is_weaker
  emit_step-closing s device step r v raw session d h w c = record {
    at = λ id.
        let d' : Delivery Float = record d {
          recorded_terminal = Dict.put s.audit_id step d.recorded_terminal;
        } in
        let (a, e, i, st, re, rec) = emit_step-head s device step r v raw session d' in
        rw (e, rec, get-put s.audit_id id step d.recorded_terminal)
          (closing-rank id s.audit_id a step d.emitted (Dict.get id d.recorded_terminal) i (c.at id)
            (λ same.
              rank-rise step (Dict.get id d.recorded_terminal) h
                (subst (λ j. weaker step (Dict.get j d.recorded_terminal) ≡ false) same w)));
  }

  -- `_record_audit_step` keeps the count, whatever it is called with.
  pub record_audit_step-IsCounted :
      (s : TwinSetting Float) (device : Text) (step : SettingStep) (r : Option SettingResult)
      (v : Value Float) (raw : Option Text) (session : Text) (d : Delivery Float)
      → IsCounted d
      → IsCounted (record_audit_step fl supply s device step r v raw session d)
  unfolding record_audit_step
  record_audit_step-IsCounted s device step r v raw session d c =
      elim (Bool-cases (not d.has_collector || s.audit_id == codes "")) [
        | inl e ↦ rw e c
        | inr e ↦ elim (Bool-cases (is_terminal step && is_final r)) [
          | inr o ↦ rw (e, o) (emit_step-open s device step r v raw session d o c)
          | inl t ↦ elim (Bool-cases (is_weaker fl supply s.audit_id step d)) [
            | inl w ↦ rw (e, t, w) c
            | inr w ↦
                rw (e, t, w)
                  (emit_step-closing s device step r v raw session d (ground (arith, t)) w c)
          ]
        ]
      ]
