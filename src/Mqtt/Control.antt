-- ===== src/Mqtt/Control.antt =====
-- mqtt/client.py with twin/handler.py and settings_constraints.py: a control that the client
-- describes to Home Assistant sends its commands where the handler takes them.
use oig_proxy.Common.{
  ℕ, ◌≡◌, ◌↔◌, refl, ap, ◌∙◌, arith, inl, inr, Bool, true, false, not, ◌&&◌, Option, some, List, [],
  ◌∷◌, ◌++◌, all, Text, codes, nat_beq, ◌==◌, text_eq, Bool-cases, if◌then◌else◌,
}
use oig_proxy.Common.Dict.{beq_refl}
use oig_proxy.Common.Decimal.{ℤ}
use oig_proxy.Values.{Floats, ExactComparison, Value}
use oig_proxy.Constraints.{
  is_setting_allowed, control_write_whitelist, parse_numeric, validate_setting_value, accepted,
}
use oig_proxy.Constraints.Bounds.{listed-all, StandsFor, validate_setting_value_iff}
use oig_proxy.Audit.Records.{contains}
use oig_proxy.Frame.Match.{after}
use oig_proxy.Frame.LocalAck.{starts_with}
use oig_proxy.Handler.{split_path, table_and_key, named_by_topic, topic_compat}
use oig_proxy.Mqtt.{slash}
use oig_proxy.Mqtt.Topics.{parts, match_parts, topic_matches}
use oig_proxy.Mqtt.Entities.{Entity, Template, number, switch, select}
use oig_proxy.Mqtt.Discovery.{command_topic, control_kind, bound_of}

-- A text that is one level of a topic.
abbrev pub no_slash : Text → Bool
no_slash s = all (λ c. not (nat_beq c b'/')) s

split_path-no_slash : (s : Text) → no_slash s ≡ true → split_path s ≡ (s, [])
unfolding split_path
split_path-no_slash [] h = refl
split_path-no_slash (c ∷ s) h = ground (arith, split_path-no_slash s)

split_path-append :
    (s t : Text)
    → no_slash s ≡ true
    → split_path (s ++ b'/' ∷ t) ≡ (s, (split_path t).0 ∷ (split_path t).1)
unfolding split_path
split_path-append [] t h = refl
split_path-append (c ∷ s) t h = ground (arith, split_path-append s t)

-- The names of the whitelist are levels.
whitelist_no_slash :
    all (λ e. all (λ k. no_slash e.0 && no_slash k) e.1) control_write_whitelist ≡ true
whitelist_no_slash = refl

both_true : {a b : Bool} → a && b ≡ true → (a ≡ true) × (b ≡ true)
both_true {a} {b} p = elim (Bool-cases a) [
  | inl x ↦ (x, ground (arith, x, p))
  | inr x ↦ absurd (ground (arith, x, p))
]

allowed-no_slash :
    (table key : Text)
    → is_setting_allowed table key ≡ true
    → (no_slash table ≡ true) × (no_slash key ≡ true)
unfolding is_setting_allowed
allowed-no_slash table key h = both_true (
    listed-all (λ t k. no_slash t && no_slash k) table key control_write_whitelist
      whitelist_no_slash h)

split_path-levels :
    (s0 s1 s2 s3 s4 : Text)
    → no_slash s0 ≡ true
    → no_slash s1 ≡ true
    → no_slash s2 ≡ true
    → no_slash s3 ≡ true
    → no_slash s4 ≡ true
    → split_path (s0 ++ b'/' ∷ (s1 ++ b'/' ∷ (s2 ++ b'/' ∷ (s3 ++ b'/' ∷ s4))))
      ≡ (s0, s1 ∷ s2 ∷ s3 ∷ s4 ∷ [])
split_path-levels s0 s1 s2 s3 s4 h0 h1 h2 h3 h4 = rw (
  split_path-append s0 (s1 ++ b'/' ∷ (s2 ++ b'/' ∷ (s3 ++ b'/' ∷ s4))) h0,
  split_path-append s1 (s2 ++ b'/' ∷ (s3 ++ b'/' ∷ s4)) h1,
  split_path-append s2 (s3 ++ b'/' ∷ s4) h2,
  split_path-append s3 s4 h3,
  split_path-no_slash s4 h4,
)

-- A topic with a text in it, and one that begins with a text.
contains-append : (p s t : Text) → contains p t ≡ true → contains p (s ++ t) ≡ true
unfolding contains
contains-append p [] t h = h
contains-append p (c ∷ s) t h = ground (arith, contains-append p s t h)

after-common : (s p t : Text) → after (s ++ p) (s ++ t) ≡ after p t
unfolding after
after-common [] p t = refl
after-common (c ∷ s) p t = ground (arith, after-common s p t)

starts_with-append : (s t : Text) → starts_with (s ++ b'/' ∷ []) (s ++ b'/' ∷ t) ≡ true
unfolding starts_with after
starts_with-append s t = rw (starts_with, after-common s (b'/' ∷ []) (b'/' ∷ t))

command_topic_levels :
    (namespace : Text) (e : Entity)
    → no_slash namespace ≡ true
    → no_slash e.device_id ≡ true
    → is_setting_allowed e.table e.sensor_key ≡ true
    → split_path (command_topic namespace e)
      ≡ (namespace, e.device_id ∷ codes "set" ∷ e.table ∷ e.sensor_key ∷ [])
unfolding command_topic
command_topic_levels namespace e n d a =
    let (t, k) = allowed-no_slash e.table e.sensor_key a in
    split_path-levels namespace e.device_id (codes "set") e.table e.sensor_key n d refl t k

topic_compat_levels :
    (namespace : Text)
    → no_slash namespace ≡ true
    → split_path (topic_compat namespace) ≡ (namespace, codes "+" ∷ codes "set" ∷ codes "#" ∷ [])
unfolding topic_compat split_path
topic_compat_levels namespace n = split_path-append namespace (codes "+/set/#") n

starts_with-command_topic :
    (namespace : Text) (e : Entity)
    → starts_with (namespace ++ b'/' ∷ []) (command_topic namespace e) ≡ true
unfolding command_topic
starts_with-command_topic namespace e = starts_with-append namespace _

contains_first : (t : Text) → contains (codes "/set/") (codes "/set/" ++ t) ≡ true
unfolding contains
contains_first t = refl

contains-command_topic :
    (namespace : Text) (e : Entity) → contains (codes "/set/") (command_topic namespace e) ≡ true
unfolding command_topic
contains-command_topic namespace e = contains-append (codes "/set/") namespace _ (
    contains-append (codes "/set/") (slash ++ e.device_id) _
      (contains_first (e.table ++ (slash ++ e.sensor_key))))

-- The subscription, level by level, against a topic with the same first level.
compat_matches :
    (namespace device table key : Text)
    → match_parts
        (namespace ∷ codes "+" ∷ codes "set" ∷ codes "#" ∷ [])
        (namespace ∷ device ∷ codes "set" ∷ table ∷ key ∷ [])
      ≡ true
unfolding match_parts
compat_matches namespace device table key = elim (Bool-cases (namespace == codes "#")) [
  | inl h ↦ rw h
  | inr h ↦ elim (Bool-cases (namespace == codes "+")) [
    | inl p ↦ rw (h, p)
    | inr p ↦ rw (h, p, beq_refl namespace)
  ]
]

-- For a namespace and a device that are levels of a topic, and a setting that may be written: the
-- topic to which the control of the setting sends fits the second subscription of the handler, and
-- the handler reads the setting's table and key from it.
pub command_topic-named_by_topic :
    (namespace : Text) (e : Entity)
    → no_slash namespace ≡ true
    → no_slash e.device_id ≡ true
    → is_setting_allowed e.table e.sensor_key ≡ true
    → (topic_matches (topic_compat namespace) (command_topic namespace e) ≡ true)
      × (named_by_topic namespace (command_topic namespace e) ≡ some (e.table, e.sensor_key))
unfolding parts topic_matches named_by_topic table_and_key
command_topic-named_by_topic namespace e n d a = (
  elim (Bool-cases (topic_compat namespace == command_topic namespace e)) [
    | inl same ↦ rw same
    | inr other ↦
        rw (other, topic_compat_levels namespace n, command_topic_levels namespace e n d a)
          (compat_matches namespace e.device_id e.table e.sensor_key)
  ],
  rw (
    starts_with-command_topic namespace e,
    contains-command_topic namespace e,
    command_topic_levels namespace e n d a,
  ),
)

-- The bounds of the number that the branches of `control_kind` end in.
number_bounds :
    (is_select is_switch : Bool) (options : List Text) (t : Template) (u d : Option Text)
    (step : Option ℕ) {u' d' : Option Text} {lo hi lo' hi' step' : Option ℕ}
    → (if is_select then select options t else if is_switch then switch else number u d lo hi step)
      ≡ number u' d' lo' hi' step'
    → (lo' ≡ lo) × (hi' ≡ hi)
number_bounds true b options t u d step k = absurd (ground (arith, k))
number_bounds false true options t u d step k = absurd (ground (arith, k))
number_bounds false false options t u d step k = (cc, cc)

module _ (fl : Floats) (exact : ExactComparison fl) (int_of : Text → Option ℤ) (e : Entity)
    (a : is_setting_allowed e.table e.sensor_key ≡ true) where
  -- A setting that may be written and whose control is a number: the number has a minimum and a
  -- maximum, and the validation of the commands accepts exactly the values that stand for an
  -- integer between these two.
  pub control_kind-StandsFor :
      {unit device_class : Option Text} {lo hi step : Option ℕ} (v u : Value fl.Float)
      → control_kind int_of e ≡ number unit device_class lo hi step
      → (min_value : ℕ) × (max_value : ℕ) × (lo ≡ some min_value)
        × (hi ≡ some max_value)
        × ((validate_setting_value fl e.table e.sensor_key v ≡ accepted u)
            ↔ StandsFor fl exact min_value max_value (parse_numeric fl v) u)
  unfolding control_kind
  control_kind-StandsFor v u k =
      let (lo, hi, step, c, iff) = validate_setting_value_iff fl exact e.table e.sensor_key v u a in
      let (min_value, max_value) = number_bounds _ _ _ _ _ _ _ k in
      (
        lo,
        hi,
        min_value ∙ ap (bound_of (λ c. c.min_value)) c,
        max_value ∙ ap (bound_of (λ c. c.max_value)) c,
        iff,
      )
