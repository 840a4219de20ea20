-- ===== src/Audit/Limits.antt =====
-- The truncation helpers and the aggregate limits of telemetry/settings_audit.py.
use oig_proxy.Common.{
  ℕ, ◌+◌, ◌-◌, ◌*◌, ◌&&◌, Bool, true, false, none, some, List, [], ◌∷◌, leb, ltb, nat_beq, Text,
  text_eq, if◌then◌else◌,
}
use oig_proxy.Common.Dict
use oig_proxy.Common.Dict.{Dict}

abbrev pub max_raw_text_bytes : ℕ
max_raw_text_bytes = 16 * 1024

abbrev pub max_total_raw_bytes : ℕ
max_total_raw_bytes = 64 * 1024

-- `_AUDIT_TRACKING_TTL_SECONDS`, in microseconds
abbrev pub audit_tracking_ttl : ℕ
audit_tracking_ttl = 300 * 1000000

abbrev pub is_surrogate : ℕ → Bool
is_surrogate c = leb 0xd800 c && leb c 0xdfff

-- The bytes that `encode("utf-8", errors="replace")` gives for a code point: a lone surrogate is
-- written as a question mark.
unfoldable pub width : ℕ → ℕ
width c =
    if ltb c 0x80
    then 1
    else if ltb c 0x800
    then 2
    else if is_surrogate c
    then 1
    else if ltb c 0x10000
    then 3
    else 4

-- len(text.encode("utf-8", errors="replace"))
unfoldable pub encoded_length : Text → ℕ
unfolding width
encoded_length [] = 0
encoded_length (c ∷ cs) = width c + encoded_length cs

-- `text.encode(…)[:limit].decode(…)`, for a text that is longer than the limit or not: whole code
-- points as far as they fit, and one U+FFFD for the first bytes of the code point that is cut.
unfoldable pub truncate_bytes : ℕ → Text → Text
unfolding width
truncate_bytes limit [] = []
truncate_bytes limit (c ∷ cs) =
    let rest = truncate_bytes (limit - width c) cs in
    if leb (width c) limit
    then (if is_surrogate c then b'?' else c) ∷ rest
    else if nat_beq limit 0
    then []
    else 0xfffd ∷ []

pub record TruncationInfo : Type 0 where
  pub original_bytes : ℕ
  pub was_truncated : Bool

unfoldable pub truncate_raw_text : Text → Text × TruncationInfo
unfolding encoded_length truncate_bytes
truncate_raw_text text =
    let encoded = encoded_length text in
    if leb encoded max_raw_text_bytes
    then (text, record { original_bytes = encoded; was_truncated = false })
    else (
      truncate_bytes max_raw_text_bytes text,
      record { original_bytes = encoded; was_truncated = true },
    )

unfoldable pub truncate_utf8_text : Text → ℕ → Text
unfolding truncate_bytes
truncate_utf8_text text byte_limit =
    if nat_beq byte_limit 0 then [] else truncate_bytes byte_limit text

-- `_audit_raw_bytes` and `_audit_last_seen`
pub record Tracking : Type 0 where
  pub raw_bytes : Dict Text ℕ
  pub last_seen : Dict Text ℕ

-- the keys whose entry is older than the time to live
unfoldable pub expired_ids : ℕ → Dict Text ℕ → List Text
expired_ids now [] = []
expired_ids now ((id, seen) ∷ d) =
    let rest = expired_ids now d in if ltb (seen + audit_tracking_ttl) now then id ∷ rest else rest

unfoldable pub forget : List Text → Tracking → Tracking
forget [] t = t
forget (id ∷ ids) t =
    forget ids
      (record t { raw_bytes = Dict.erase id t.raw_bytes; last_seen = Dict.erase id t.last_seen })

unfoldable pub cleanup_audit_tracking : ℕ → Tracking → Tracking
unfolding expired_ids forget
cleanup_audit_tracking now t = forget (expired_ids now t.last_seen) t

unfoldable pub touch_audit_tracking : Text → ℕ → Tracking → Tracking
touch_audit_tracking id now t =
    if Dict.has id t.raw_bytes then record t { last_seen = Dict.put id now t.last_seen } else t

unfoldable pub used_bytes : Text → Tracking → ℕ
used_bytes id t = elim (Dict.get id t.raw_bytes) [ none ↦ 0 | some n ↦ n ]

-- What `_apply_raw_text_limits` returns.
pub record Limited : Type 0 where
  pub text : Text
  pub info : TruncationInfo
  pub capped : Bool

-- `max(0, limit - used)` is the subtraction on ℕ.
unfoldable pub apply_raw_text_limits : Text → Text → ℕ → Tracking → Limited × Tracking
unfolding cleanup_audit_tracking truncate_raw_text encoded_length used_bytes truncate_utf8_text
apply_raw_text_limits id raw_text now t =
    let t' = cleanup_audit_tracking now t in
    let (truncated, info) = truncate_raw_text raw_text in
    let stored = encoded_length truncated in
    let used = used_bytes id t' in
    let remaining = max_total_raw_bytes - used in
    let capped = ltb remaining stored in
    let text = if capped then truncate_utf8_text truncated remaining else truncated in
    let kept = if capped then record info { was_truncated = true } else info in
    (
      record { text = text; info = kept; capped = capped },
      record {
        raw_bytes = Dict.put id (used + encoded_length text) t'.raw_bytes;
        last_seen = Dict.put id now t'.last_seen;
      },
    )
