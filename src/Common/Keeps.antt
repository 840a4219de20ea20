-- ===== src/Common/Keeps.antt =====
-- A property that both branches have holds of the whole test.
use mathlib.Core.Bool.{Bool, true, false}
use mathlib.Core.Option.{Option, none, some}
use mathlib.Core.Path.{◌≡◌, refl}
use oig_proxy.Common.Tests.{if◌then◌else◌}

module _ {D : Type 0} (P : D → Type 0) where
  pub keep-if : (b : Bool) {x y : D} → P x → P y → P (if b then x else y)
  keep-if true h k = h
  keep-if false h k = k

  pub keep-option :
      {A : Type 0} (o : Option A) {x : D} {f : A → D}
      → P x
      → ((a : A) → P (f a))
      → P (elim o [ none ↦ x | some a ↦ f a ])
  keep-option none h k = h
  keep-option (some a) h k = k a

  -- with what the computed value is
  pub keep-option_known :
      {A : Type 0} (o : Option A) {x : D} {f : A → D}
      → (o ≡ none → P x)
      → ((a : A) → o ≡ some a → P (f a))
      → P (elim o [ none ↦ x | some a ↦ f a ])
  keep-option_known none h k = h refl
  keep-option_known (some a) h k = k a refl
