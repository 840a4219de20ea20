-- ===== src/Audit/Redaction.antt =====
-- What the records of a setting with a sensitive key can show.
use oig_proxy.Common.{ℕ, ◌≡◌, refl, true, Option, some, ◌∷◌, Text}
use oig_proxy.Common.Decimal.{ℤ}
use oig_proxy.Values.{Floats, int, str}
use oig_proxy.Audit.Steps.{SettingStep, SettingResult}
use oig_proxy.Audit.Limits.{Tracking}
use oig_proxy.Audit.Records.{
  Draw, SettingsAuditRecord, is_sensitive_key, redacted, make_incoming_record, make_step_record,
}

module _ (fl : Floats) (key : Text) (sensitive : is_sensitive_key key ≡ true) where
  open fl use {Float, of_int}

  -- With a sensitive key, the incoming record and the byte counts do not depend on the raw text
  -- nor on the text that is set, so they tell nothing of either.
  pub incoming-hides :
      (d : Draw) (device table raw raw' v v' session : Text) (msg set : ℤ) (t : Tracking)
      → make_incoming_record fl d device table key raw (str v) session msg set t
        ≡ make_incoming_record fl d device table key raw' (str v') session msg set t
  unfolding make_incoming_record
  incoming-hides d device table raw raw' v v' session msg set t = rw sensitive refl

  -- With a sensitive key, a later record and the byte counts do not depend on a raw text that is
  -- not empty nor on the text that is confirmed.
  step-hides :
      (now : ℕ) (parent : SettingsAuditRecord Float) (step : SettingStep)
      (result : Option SettingResult) (c c' : ℕ) (raw raw' v v' : Text) (session : Option Text)
      (msg set : Option ℤ) (t : Tracking)
      → parent.key ≡ key
      → make_step_record fl now parent step result (some (c ∷ raw)) (str v) session msg set t
        ≡ make_step_record fl now parent step result (some (c' ∷ raw')) (str v') session msg set t
  unfolding make_step_record
  step-hides now parent step result c c' raw raw' v v' session msg set t e = rw (e, sensitive) refl

  -- An integer that is set under a sensitive key is in the incoming record all the same.
  incoming-shows_int :
      (d : Draw) (device table raw session : Text) (n msg set : ℤ) (t : Tracking)
      → let r = (make_incoming_record fl d device table key raw (int n) session msg set t).0 in
        (r.value_text ≡ redacted) × (r.value_num_float ≡ some (of_int n))
  unfolding make_incoming_record
  incoming-shows_int d device table raw session n msg set t = (rw sensitive refl, refl)
