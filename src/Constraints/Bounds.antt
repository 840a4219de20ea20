-- ===== src/Constraints/Bounds.antt =====
-- What the whitelist and the constraints promise together: a value that is accepted for a
-- writable setting is an integer within the setting's bounds.
use oig_proxy.Common.{
  ℕ, ◌≤◌, ◌≡◌, ◌↔◌, inl, inr, Bool-cases, refl, ap, Bool, true, false, ◌&&◌, Option, none, some,
  List, [], ◌∷◌, arith, all, any, Text, ◌==◌, text_eq, text_beq_iff, pair_eq, if◌then◌else◌,
}
use oig_proxy.Common.Dict
use oig_proxy.Common.Dict.{Dict}
use oig_proxy.Common.Decimal.{ℤ, pos, negsuc, lt_int}
use oig_proxy.Values.{Floats, ExactComparison, Value, int}
use oig_proxy.Constraints.{
  SettingConstraint, setting_constraints, control_write_whitelist, is_setting_allowed,
  parse_numeric, validate_parsed, validate_setting_value, Validated, accepted, refused, not_numeric,
  not_integer, below_min, above_max,
}

-- The constraint found is of integers, with both bounds.
abbrev is_closed : Option SettingConstraint → Bool
is_closed none = false
is_closed (some c) =
    c.integer_only
    && elim c.min_value [ none ↦ false | some _ ↦ true ]
    && elim c.max_value [ none ↦ false | some _ ↦ true ]

any-all :
    (p : Text → Bool) (k : Text) (keys : List Text)
    → all p keys ≡ true
    → any (λ j. j == k) keys ≡ true
    → p k ≡ true
any-all p k [] h m = absurd (ground arith)
any-all p k (j ∷ keys) h m = ground (arith, text_beq_iff j k, any-all p k keys)

abbrev pub listed : Dict Text (List Text) → Text → Text → Bool
unfolding Dict.get
listed w t k = elim (Dict.get t w) [ none ↦ false | some keys ↦ any (λ j. j == k) keys ]

pub listed-all :
    (p : Text → Text → Bool) (t k : Text) (w : Dict Text (List Text))
    → all (λ e. all (p e.0) e.1) w ≡ true
    → listed w t k ≡ true
    → p t k ≡ true
unfolding Dict.get
listed-all p t k [] h m = absurd (ground arith)
listed-all p t k ((s, keys) ∷ w) h m =
    ground (arith, text_beq_iff s t, any-all (p s) k keys, listed-all p t k w)

-- Every setting that the whitelist names has a constraint to integers with both bounds.
whitelist_closed :
    all
      (λ e. all (λ k. is_closed (Dict.get (e.0, k) setting_constraints)) e.1)
      control_write_whitelist
    ≡ true
unfolding Dict.get
whitelist_closed = refl

-- A constraint to integers between two bounds.
abbrev pub closed : ℕ → ℕ → Option ℕ → SettingConstraint
closed lo hi step = record {
  min_value = some lo;
  max_value = some hi;
  step = step;
  integer_only = true;
}

closed-fields :
    (min max step : Option ℕ) (only : Bool)
    → (only
        && elim min [ none ↦ false | some _ ↦ true ]
        && elim max [ none ↦ false | some _ ↦ true ])
      ≡ true
    → (lo : ℕ) × (hi : ℕ) × ◌≡◌ {A = SettingConstraint}
        (record { min_value = min; max_value = max; step = step; integer_only = only })
        (closed lo hi step)
closed-fields (some lo) (some hi) step true h = (lo, hi, refl)
closed-fields (some lo) none step true h = absurd (ground arith)
closed-fields none max step true h = absurd (ground arith)
closed-fields min max step false h = absurd (ground arith)

closed-bounds :
    (c : Option SettingConstraint)
    → is_closed c ≡ true
    → (lo : ℕ) × (hi : ℕ) × (step : Option ℕ) × (c ≡ some (closed lo hi step))
closed-bounds none h = absurd (ground arith)
closed-bounds (some c) h =
    let (lo, hi, e) = closed-fields c.min_value c.max_value c.step c.integer_only h in
    (lo, hi, c.step, ap some e)

-- Every setting that the whitelist allows has a constraint to integers with both bounds.
pub allowed-closed :
    (table key : Text)
    → is_setting_allowed table key ≡ true
    → (lo : ℕ) × (hi : ℕ) × (step : Option ℕ) × (Dict.get (table, key) setting_constraints
        ≡ some (closed lo hi step))
unfolding is_setting_allowed
allowed-closed table key h = closed-bounds (Dict.get (table, key) setting_constraints) (
    listed-all (λ t k. is_closed (Dict.get (t, k) setting_constraints)) table key
      control_write_whitelist whitelist_closed h)

module _ (fl : Floats) (exact : ExactComparison fl) where
  open fl use {Float, is_integer, to_int}

  validate_parsed-closed :
      (lo hi : ℕ) (step : Option ℕ) (x : Float)
      → validate_parsed fl (some (closed lo hi step)) x ≡ (
          if is_integer x
          then (if lt_int (to_int x) (pos lo)
              then refused (below_min lo)
              else (if lt_int (pos hi) (to_int x)
                  then refused (above_max hi)
                  else accepted (int (to_int x))))
          else refused not_integer)
  unfolding validate_parsed
  validate_parsed-closed lo hi step x =
      ground (arith, exact.below_int x (pos lo), exact.above_int x (pos hi))

  in_range-int :
      (lo hi : ℕ) (z : ℤ) (u : Value Float)
      → ◌≡◌ {A = Validated fl}
          (if lt_int z (pos lo)
            then refused (below_min lo)
            else (if lt_int (pos hi) z then refused (above_max hi) else accepted (int z)))
          (accepted u)
      → (n : ℕ) × (z ≡ pos n) × (lo ≤ n) × (n ≤ hi) × (u ≡ int (pos n))
  in_range-int lo hi (pos n) u h = (n, refl, ground arith, ground arith, ground arith)
  in_range-int lo hi (negsuc n) u h = absurd (ground arith)

  abbrev decided : ℕ → ℕ → Option ℕ → Option Float → Validated fl
  decided lo hi step o = elim o [
    | none ↦ refused not_numeric
    | some x ↦ validate_parsed fl (some (closed lo hi step)) x
  ]

  -- The value stands for the integer `n`, which lies within the bounds.
  abbrev pub StandsFor : ℕ → ℕ → Option Float → Value Float → Type 0
  StandsFor lo hi o u =
      (x : Float) × (n : ℕ) × (o ≡ some x)
      × (is_integer x ≡ true)
      × (to_int x ≡ pos n)
      × (lo ≤ n)
      × (n ≤ hi)
      × (u ≡ int (pos n))

  decided-StandsFor :
      (lo hi : ℕ) (step : Option ℕ) (o : Option Float) (u : Value Float)
      → decided lo hi step o ≡ accepted u
      → StandsFor lo hi o u
  decided-StandsFor lo hi step none u h = absurd (ground arith)
  decided-StandsFor lo hi step (some x) u h = elim (Bool-cases (is_integer x)) [
    | inl i ↦
        let (n, z, a, b, c) =
          in_range-int lo hi (to_int x) u (ground (arith, validate_parsed-closed lo hi step x)) in
        (x, n, refl, i, z, a, b, c)
    | inr i ↦ absurd (ground (arith, validate_parsed-closed lo hi step x))
  ]

  StandsFor-decided :
      (lo hi : ℕ) (step : Option ℕ) (o : Option Float) (u : Value Float)
      → StandsFor lo hi o u
      → decided lo hi step o ≡ accepted u
  StandsFor-decided lo hi step o u (x, n, e, i, z, a, b, c) =
      rw (e, validate_parsed-closed lo hi step x) (ground arith)

  validate-decided :
      (table key : Text) (v : Value Float) (lo hi : ℕ) (step : Option ℕ)
      → Dict.get (table, key) setting_constraints ≡ some (closed lo hi step)
      → validate_setting_value fl table key v ≡ decided lo hi step (parse_numeric fl v)
  unfolding validate_setting_value
  validate-decided table key v lo hi step e = ground (arith, e)

  -- For a setting that the whitelist allows, validation accepts exactly the values that stand for
  -- an integer within the setting's two bounds, and hands on that integer.
  pub validate_setting_value_iff :
      (table key : Text) (v u : Value Float)
      → is_setting_allowed table key ≡ true
      → (lo : ℕ) × (hi : ℕ) × (step : Option ℕ) × (Dict.get (table, key) setting_constraints
          ≡ some (closed lo hi step))
        × ((validate_setting_value fl table key v ≡ accepted u)
            ↔ StandsFor lo hi (parse_numeric fl v) u)
  validate_setting_value_iff table key v u h =
      let (lo, hi, step, e) = allowed-closed table key h in
      (
        lo,
        hi,
        step,
        e,
        rw (validate-decided table key v lo hi step e) (
          decided-StandsFor lo hi step (parse_numeric fl v) u,
          StandsFor-decided lo hi step (parse_numeric fl v) u,
        ),
      )
