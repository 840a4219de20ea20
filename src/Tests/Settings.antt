-- ===== src/Tests/Settings.antt =====
-- Validation and audit records of concrete settings.
use mathlib.Core.Logic.{◌↔◌}
use oig_proxy.Common.{
  ℕ, zero, suc, ◌<◌, ◌≡◌, refl, true, Option, some, [], ◌∷◌, codes, Text, text_eq, pair_eq, arith,
  length, Holds,
}
use oig_proxy.Common.Dict
use oig_proxy.Common.Decimal.{ℤ, pos}
use oig_proxy.Values.{int, str}
use oig_proxy.Constraints.{
  is_setting_allowed, setting_constraints, parse_numeric, validate_setting_value, accepted,
}
use oig_proxy.Constraints.Bounds.{closed, StandsFor, validate_setting_value_iff}
use oig_proxy.Audit.Limits.{Tracking, apply_raw_text_limits}
use oig_proxy.Audit.Records.{is_sensitive_key, make_incoming_record, SettingsAuditRecord}
use oig_proxy.Audit.Bounded.{WithinTotal, apply-WithinTotal}
use oig_proxy.Audit.Redaction.{incoming-hides}
use oig_proxy.Tests.{whole, whole-ExactComparison, supply}

abbrev table : Text
table = codes "tbl_boiler_prms"

abbrev key : Text
key = codes "MANUAL"

manual-allowed : is_setting_allowed table key ≡ true
unfolding is_setting_allowed Dict.get
manual-allowed = refl

validate_setting_value_example :
    (lo : ℕ) × (hi : ℕ) × (step : Option ℕ) × (Dict.get (table, key) setting_constraints
      ≡ some (closed lo hi step))
    × ((validate_setting_value whole table key (int (pos 1)) ≡ accepted (int (pos 1)))
        ↔ StandsFor whole whole-ExactComparison lo hi
            (parse_numeric whole (int (pos 1)))
            (int (pos 1)))
validate_setting_value_example =
    validate_setting_value_iff whole whole-ExactComparison table key (int (pos 1)) (int (pos 1))
      manual-allowed

abbrev untracked : Tracking
untracked = record { raw_bytes = []; last_seen = [] }

untracked-WithinTotal : WithinTotal untracked
unfolding Dict.get
untracked-WithinTotal = record { at = λ id n e. absurd (ground arith) }

apply-WithinTotal_example :
    WithinTotal (apply_raw_text_limits (codes "a1") (codes "<x/>") 5 untracked).1
apply-WithinTotal_example =
    apply-WithinTotal (codes "a1") (codes "<x/>") 5 untracked untracked-WithinTotal

abbrev secret : Text
secret = codes "MqttPassword"

secret-sensitive : is_sensitive_key secret ≡ true
unfolding is_sensitive_key
secret-sensitive = refl

incoming-hides_example :
    make_incoming_record whole
      (supply 3)
      (codes "2206237016")
      table
      secret
      (codes "raw")
      (str (codes "one"))
      (codes "s1")
      (pos 1)
      (pos 2)
      untracked
    ≡ make_incoming_record whole
        (supply 3)
        (codes "2206237016")
        table
        secret
        (codes "war")
        (str (codes "two"))
        (codes "s1")
        (pos 1)
        (pos 2)
        untracked
incoming-hides_example =
    incoming-hides whole secret secret-sensitive (supply 3) (codes "2206237016") table (codes "raw")
      (codes "war") (codes "one") (codes "two") (codes "s1") (pos 1) (pos 2) untracked

abbrev parent : SettingsAuditRecord ℤ
parent =
    (make_incoming_record whole (supply 3) (codes "2206237016") table secret (codes "raw")
      (int (pos 8)) (codes "s1") (pos 1) (pos 2) untracked).0

parent-key : parent.key ≡ secret
unfolding make_incoming_record
parent-key = refl

-- a run of the letter a
letters : ℕ → Text
letters zero = []
letters (suc n) = 97 ∷ letters n

letters-Holds : (n : ℕ) → Holds (λ x. x < 0x80) (letters n)
unfolding letters
letters-Holds zero = tt
letters-Holds (suc n) = (omega arith, letters-Holds n)

length-letters : (n : ℕ) → length (letters n) ≡ n
unfolding letters
length-letters zero = refl
length-letters (suc n) = omega (arith, length-letters n)
