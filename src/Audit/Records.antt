-- ===== src/Audit/Records.antt =====
-- The records of telemetry/settings_audit.py and the functions that make them.
use oig_proxy.Common.{
  ℕ, ◌+◌, ◌/◌, Bool, true, false, ◌||◌, ◌&&◌, Option, none, some, [], ◌∷◌, ◌++◌, map, nat_beq, leb,
  Text, codes, text_eq, if◌then◌else◌,
}
use oig_proxy.Common.Decimal.{ℤ, pad}
use oig_proxy.Values.{
  Floats, Value, null, bool, int, float, str, other, normalize_value_for_text, detect_value_kind,
}
use oig_proxy.Audit.Steps.{
  SettingStep, incoming, superseded, SettingResult, pending, replaced, is_terminal,
  terminal_result_for_step,
}
use oig_proxy.Audit.Limits.{
  TruncationInfo, Tracking, touch_audit_tracking, Limited, apply_raw_text_limits,
}

abbrev is_prefix : Text → Text → Bool
is_prefix [] s = true
is_prefix (c ∷ cs) [] = false
is_prefix (c ∷ cs) (d ∷ s) = nat_beq c d && is_prefix cs s

-- `pattern in text`, the search of a fixed text
unfoldable pub contains : Text → Text → Bool
contains p [] = is_prefix p []
contains p (c ∷ s) = is_prefix p (c ∷ s) || contains p s

-- The case folding of `re.IGNORECASE`, on the letters that it takes for those of the words: the
-- Kelvin sign matches `k`, and the long s matches `s`.
abbrev fold_code : ℕ → ℕ
fold_code c =
    if leb b'A' c && leb c b'Z'
    then c + 32
    else if nat_beq c 8490
    then b'k'
    else if nat_beq c 383
    then b's'
    else c

unfoldable pub is_sensitive_key : Text → Bool
unfolding contains
is_sensitive_key key =
    let k = map fold_code key in
    contains (codes "password") k
    || contains (codes "token") k
    || contains (codes "secret") k
    || contains (codes "auth") k
    || contains (codes "pass") k
    || contains (codes "key") k

abbrev pub redacted : Text
redacted = codes "[REDACTED]"

unfoldable pub redact_sensitive_value : Text → Text → Text
redact_sensitive_value key value = if is_sensitive_key key then redacted else value

-- One reading of the clock, in microseconds, and one draw of `secrets.randbelow(1_000_000)`.
pub record Draw : Type 0 where
  pub now : ℕ
  pub random : ℕ

-- `f"aud_{int(time.time() * 1000):014d}_{secrets.randbelow(1_000_000):06d}"`
unfoldable pub generate_audit_id : Draw → Text
unfolding pad
generate_audit_id d = codes "aud_" ++ (pad 14 (d.now / 1000) ++ (b'_' ∷ pad 6 d.random))

pub record SettingsAuditRecord (F : Type 0) : Type 0 where
  pub audit_id : Text
  pub device_id : Text
  pub table : Text
  pub key : Text
  pub step : SettingStep
  pub result : SettingResult
  pub session_id : Text
  pub msg_id : ℤ
  pub id_set : ℤ
  pub value_text : Text
  pub confirmed_value_text : Text
  pub value_kind : Text
  pub confirmed_value_kind : Text
  pub value_num_float : Option F
  pub confirmed_value_num_float : Option F
  pub raw_text : Text
  pub raw_text_truncated : Bool
  pub raw_text_bytes_original : ℕ
  pub audit_payload_capped : Bool
  pub timestamp : ℕ

unfoldable pub with_truncated_raw_text :
    {F : Type 0} → SettingsAuditRecord F → Text → TruncationInfo → SettingsAuditRecord F
with_truncated_raw_text r truncated info = record r {
  raw_text = truncated;
  raw_text_truncated = info.was_truncated;
  raw_text_bytes_original = info.original_bytes;
}

-- session_id or msg_id or id_set, if it is given
abbrev pub given_or {ℓ} : {A : Type ℓ} → Option A → A → A
given_or none a = a
given_or (some b) a = b

unfoldable pub result_of : Option SettingResult → SettingStep → SettingResult
unfolding is_terminal terminal_result_for_step
result_of (some r) step = r
result_of none step = if is_terminal step then terminal_result_for_step step else pending

module _ (fl : Floats) where
  open fl use {Float, of_int}

  pub num_float : Value Float → Option Float
  num_float (int n) = some (of_int n)
  num_float (float x) = some x
  num_float (null) = none
  num_float (bool b) = none
  num_float (str s) = none
  num_float (other s) = none

  -- `raw_text` as the caller passes it; the record and the tracking afterwards.
  unfoldable pub make_incoming_record :
      Draw
      → (device_id table key raw_text : Text) → Value Float
      → (session_id : Text) (msg_id id_set : ℤ) → Tracking
      → SettingsAuditRecord Float × Tracking
  unfolding generate_audit_id normalize_value_for_text detect_value_kind num_float
      redact_sensitive_value with_truncated_raw_text
  make_incoming_record d device_id table key raw_text value session_id msg_id id_set t =
      let id = generate_audit_id d in
      let raw = if is_sensitive_key key then redacted else raw_text in
      let (limited, t') = apply_raw_text_limits id raw d.now t in
      let made : SettingsAuditRecord Float = record {
        audit_id = id;
        device_id = device_id;
        table = table;
        key = key;
        step = incoming;
        result = pending;
        session_id = session_id;
        msg_id = msg_id;
        id_set = id_set;
        value_text = redact_sensitive_value key (normalize_value_for_text fl value);
        confirmed_value_text = [];
        value_kind = detect_value_kind value;
        confirmed_value_kind = [];
        value_num_float = num_float value;
        confirmed_value_num_float = none;
        raw_text = [];
        raw_text_truncated = false;
        raw_text_bytes_original = 0;
        audit_payload_capped = limited.capped;
        timestamp = d.now;
      } in
      (with_truncated_raw_text made limited.text limited.info, t')

  confirmed_text : Value Float → Text
  unfolding normalize_value_for_text
  confirmed_text null = []
  confirmed_text v = normalize_value_for_text fl v

  confirmed_kind : Value Float → Text
  unfolding detect_value_kind
  confirmed_kind null = []
  confirmed_kind v = detect_value_kind v

  -- The limits, which are applied to a raw text that is not empty.
  limit_source : Text → Bool → Text → ℕ → Tracking → Limited × Tracking
  limit_source id sensitive [] now t = (
    record {
      text = [];
      info = record { original_bytes = 0; was_truncated = false };
      capped = false;
    },
    t,
  )
  limit_source id sensitive (c ∷ cs) now t =
      apply_raw_text_limits id (if sensitive then redacted else c ∷ cs) now t

  -- `none` and `null` stand for the arguments that are `None`.
  unfoldable pub make_step_record :
      ℕ
      → SettingsAuditRecord Float
      → SettingStep
      → Option SettingResult
      → (raw_text : Option Text) → (confirmed_value : Value Float) → (session_id : Option Text)
      → (msg_id id_set : Option ℤ) → Tracking
      → SettingsAuditRecord Float × Tracking
  unfolding result_of confirmed_text confirmed_kind num_float limit_source redact_sensitive_value
      with_truncated_raw_text
  make_step_record now parent step result raw_text confirmed session_id msg_id id_set t =
      let touched = touch_audit_tracking parent.audit_id now t in
      let source = given_or raw_text parent.raw_text in
      let (limited, t') =
        limit_source parent.audit_id (is_sensitive_key parent.key) source now touched in
      let made : SettingsAuditRecord Float = record {
        audit_id = parent.audit_id;
        device_id = parent.device_id;
        table = parent.table;
        key = parent.key;
        step = step;
        result = result_of result step;
        session_id = given_or session_id parent.session_id;
        msg_id = given_or msg_id parent.msg_id;
        id_set = given_or id_set parent.id_set;
        value_text = parent.value_text;
        confirmed_value_text = redact_sensitive_value parent.key (confirmed_text confirmed);
        value_kind = parent.value_kind;
        confirmed_value_kind = confirmed_kind confirmed;
        value_num_float = parent.value_num_float;
        confirmed_value_num_float = num_float confirmed;
        raw_text = [];
        raw_text_truncated = false;
        raw_text_bytes_original = 0;
        audit_payload_capped = limited.capped;
        timestamp = now;
      } in
      (with_truncated_raw_text made limited.text limited.info, t')

  unfoldable pub make_superseded_record :
      ℕ → SettingsAuditRecord Float → Tracking → SettingsAuditRecord Float × Tracking
  make_superseded_record now parent =
      make_step_record now parent superseded (some replaced) none null none none none
