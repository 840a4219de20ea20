-- ===== src/Audit/Bounded.antt =====
-- How much raw text one record, and all records of one audit id, can hold.
use oig_proxy.Common.{
  ℕ, ◌+◌, ◌-◌, ◌≤◌, ◌≡◌, refl, inl, inr, Option-cases, nat_beq, some, List, [], ◌∷◌, arith, Text,
  text_eq, if◌then◌else◌,
}
use oig_proxy.Common.Dict
use oig_proxy.Common.Dict.{Dict, get-put, get-erase}
use oig_proxy.Audit.Limits.{
  max_raw_text_bytes, max_total_raw_bytes, width, encoded_length, truncate_bytes, truncate_raw_text,
  truncate_utf8_text, Tracking, expired_ids, forget, cleanup_audit_tracking, touch_audit_tracking,
  used_bytes, apply_raw_text_limits,
}

-- A truncated text has at most two bytes more than the limit.
pub encoded_length-truncate_bytes :
    (limit : ℕ) (s : Text) → encoded_length (truncate_bytes limit s) ≤ limit + 2
unfolding encoded_length truncate_bytes
encoded_length-truncate_bytes limit [] = omega arith
encoded_length-truncate_bytes limit (c ∷ cs) =
    ground (arith, encoded_length-truncate_bytes (limit - width c) cs)

pub encoded_length-truncate_raw_text :
    (s : Text) → encoded_length (truncate_raw_text s).0 ≤ max_raw_text_bytes + 2
unfolding truncate_raw_text
encoded_length-truncate_raw_text s =
    ground (arith, encoded_length-truncate_bytes max_raw_text_bytes s)

-- No audit id has used more than the aggregate limit and two bytes.
pub record WithinTotal (t : Tracking) : Type 0 where
  pub at : (id : Text) (n : ℕ) → Dict.get id t.raw_bytes ≡ some n → n ≤ max_total_raw_bytes + 2

forget-WithinTotal : (ids : List Text) (t : Tracking) → WithinTotal t → WithinTotal (forget ids t)
unfolding forget
forget-WithinTotal [] t h = h
forget-WithinTotal (i ∷ ids) t h =
    forget-WithinTotal ids
      (record t { raw_bytes = Dict.erase i t.raw_bytes; last_seen = Dict.erase i t.last_seen })
      (record { at = λ id n e. ground (arith, get-erase i id t.raw_bytes, h.at id n) })

cleanup-WithinTotal :
    (now : ℕ) (t : Tracking) → WithinTotal t → WithinTotal (cleanup_audit_tracking now t)
unfolding cleanup_audit_tracking
cleanup-WithinTotal now t h = forget-WithinTotal (expired_ids now t.last_seen) t h

pub touch-WithinTotal :
    (id : Text) (now : ℕ) (t : Tracking)
    → WithinTotal t
    → WithinTotal (touch_audit_tracking id now t)
unfolding touch_audit_tracking
touch-WithinTotal id now t h = record { at = λ j n e. ground (arith, h.at j n) }

used-le : (id : Text) (t : Tracking) → WithinTotal t → used_bytes id t ≤ max_total_raw_bytes + 2
unfolding used_bytes
used-le id t h = elim (Option-cases (Dict.get id t.raw_bytes)) [
  | inl e ↦ ground (arith, e)
  | inr (n, e) ↦ ground (arith, e, h.at id n e)
]

encoded_length-truncate_utf8_text :
    (s : Text) (limit : ℕ)
    → encoded_length (truncate_utf8_text s limit) ≤ (if nat_beq limit 0 then 0 else limit + 2)
unfolding truncate_utf8_text encoded_length
encoded_length-truncate_utf8_text s limit = ground (arith, encoded_length-truncate_bytes limit s)

-- The bytes of the text that `apply_raw_text_limits` keeps, against those used before.
kept_bytes :
    (id raw : Text) (now : ℕ) (t : Tracking)
    → let used = used_bytes id (cleanup_audit_tracking now t) in
      let kept = encoded_length (apply_raw_text_limits id raw now t).0.text in
      (kept ≤ (max_total_raw_bytes - used) + 2)
      × (used ≤ max_total_raw_bytes + 2 → used + kept ≤ max_total_raw_bytes + 2)
unfolding apply_raw_text_limits
kept_bytes id raw now t =
    let t' = cleanup_audit_tracking now t in
    let s = (truncate_raw_text raw).0 in
    let room = max_total_raw_bytes - used_bytes id t' in
    ground (arith, encoded_length-truncate_utf8_text s room)

raw_bytes-apply :
    (id raw : Text) (now : ℕ) (t : Tracking)
    → let t' = cleanup_audit_tracking now t in
      let (limited, after) = apply_raw_text_limits id raw now t in
      after.raw_bytes ≡ Dict.put id (used_bytes id t' + encoded_length limited.text) t'.raw_bytes
unfolding apply_raw_text_limits
raw_bytes-apply id raw now t = refl

-- Applying the limits keeps every audit id within the aggregate limit and two bytes.
pub apply-WithinTotal :
    (id raw : Text) (now : ℕ) (t : Tracking)
    → WithinTotal t
    → WithinTotal (apply_raw_text_limits id raw now t).1
apply-WithinTotal id raw now t h = record {
  at = λ j n e.
      let t' = cleanup_audit_tracking now t in
      let c = cleanup-WithinTotal now t h in
      let total = used_bytes id t' + encoded_length (apply_raw_text_limits id raw now t).0.text in
      ground (
        arith,
        kept_bytes id raw now t,
        used-le id t' c,
        raw_bytes-apply id raw now t,
        get-put id j total t'.raw_bytes,
        c.at j n,
      );
}
