-- ===== src/App/Control.antt =====
-- main.py with settings_constraints.py and proxy/mode.py: the control of the proxy's mode.
use oig_proxy.Common.{
  ℕ, zero, suc, ◌≤◌, ◌≡◌, refl, sym, ap, subst, arith, true, Option, none, some, Text, codes,
  text_eq, pair_eq, strip, lower,
}
use oig_proxy.Common.Dict
use oig_proxy.Common.Decimal.{ℤ, pos}
use oig_proxy.Values.{Floats, ExactComparison, Value, int}
use oig_proxy.Mode.{ModeManager, online_text, hybrid_text, offline_text, apply_configured_mode}
use oig_proxy.Constraints.{
  SettingConstraint, setting_constraints, is_setting_allowed, validate_setting_value, accepted,
}
use oig_proxy.Constraints.Bounds.{closed, validate_setting_value_iff}
use oig_proxy.App.{ProxyApp, mode_name, apply_proxy_mode, handle_proxy_control}

abbrev pub proxy_control : Text
proxy_control = codes "proxy_control"

abbrev pub proxy_mode : Text
proxy_mode = codes "PROXY_MODE"

-- The modes, by the numbers 0, 1 and 2.
abbrev pub numbered_mode : ℕ → Text
numbered_mode zero = online_text
numbered_mode (suc zero) = hybrid_text
numbered_mode (suc (suc n)) = offline_text

-- The greatest value that a constraint allows.
abbrev greatest : Option SettingConstraint → ℕ
greatest none = 0
greatest (some c) = elim c.max_value [ none ↦ 0 | some n ↦ n ]

proxy_mode-bound :
    (lo hi : ℕ) (step : Option ℕ)
    → Dict.get (proxy_control, proxy_mode) setting_constraints ≡ some (closed lo hi step)
    → hi ≡ 2
unfolding Dict.get
proxy_mode-bound lo hi step e = sym (ap greatest e)

module _ (fl : Floats) (int_of : Text → Option ℤ) {C : Type 0} where
  open fl use {Float}

  sets_mode :
      (n : ℕ) (m : ModeManager) (a : ProxyApp Float C)
      → n ≤ 2
      → ((handle_proxy_control fl int_of proxy_control proxy_mode (int (pos n)) (m, a)).1 ≡ true)
        × ((handle_proxy_control fl int_of proxy_control proxy_mode
              (int (pos n))
              (m, a)).0.0.configured_mode
            ≡ numbered_mode n)
  unfolding handle_proxy_control mode_name apply_proxy_mode apply_configured_mode strip lower
  sets_mode zero m a l = (refl, refl)
  sets_mode (suc zero) m a l = (refl, refl)
  sets_mode (suc (suc zero)) m a l = (refl, refl)
  sets_mode (suc (suc (suc n))) m a l = absurd (omega arith)

  -- A value that the validation accepts for the mode of the proxy is one of 0, 1 and 2, the control
  -- handles it, and the manager then has the mode of this number configured.
  pub handle_proxy_control-accepted :
      (exact : ExactComparison fl) (v u : Value Float) (m : ModeManager) (a : ProxyApp Float C)
      → validate_setting_value fl proxy_control proxy_mode v ≡ accepted u
      → (n : ℕ) × (n ≤ 2)
        × (u ≡ int (pos n))
        × ((handle_proxy_control fl int_of proxy_control proxy_mode u (m, a)).1 ≡ true)
        × ((handle_proxy_control fl int_of proxy_control proxy_mode u (m, a)).0.0.configured_mode
            ≡ numbered_mode n)
  handle_proxy_control-accepted exact v u m a h =
      let (lo, hi, step, e, iff) =
        validate_setting_value_iff fl exact proxy_control proxy_mode v u
          (unfold is_setting_allowed in refl) in
      let (x, n, parsed, whole, at, low, high, same) = iff.0 h in
      let l : n ≤ 2 = omega (arith, proxy_mode-bound lo hi step e) in
      let (handled, set) = sets_mode n m a l in
      (
        n,
        l,
        same,
        subst
            (λ (w : Value Float).
              (handle_proxy_control fl int_of proxy_control proxy_mode w (m, a)).1 ≡ true)
            (sym same) handled,
        subst
            (λ (w : Value Float).
              (handle_proxy_control fl int_of proxy_control proxy_mode w (m, a)).0.0.configured_mode
              ≡ numbered_mode n)
            (sym same) set,
      )
