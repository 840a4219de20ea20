-- ===== src/Common.antt =====
-- The names that the modules share: the libraries', passed on, and those of the children.
pub mod Tests
pub mod Lists
pub mod Texts
pub mod Chars
pub mod Decimal
pub mod Keeps
pub mod Dict
pub use Tests.{ltb, leb, ltb→lt, leb→le, nat_beq, nat_beq_iff, Bool-cases, Option-cases, tests}
pub use Tests.{if◌then◌else◌}
pub use Lists.{length, take, drop, length-append, all, Holds, Holds-mono, any}
pub use Texts.{Text, codes, Eq, ◌==◌, text_eq, text_beq_iff, nat_eq, pair_eq}
pub use Prim.Native.Nat.{ℕ, zero, suc, ◌+◌, ◌-◌, ◌*◌, ◌/◌, ◌%◌, ◌^◌, ◌≤◌, ◌<◌}
pub use mathlib.Core.Path.{◌≡◌, refl, sym, ap, ◌∙◌, subst}
pub use mathlib.Core.Logic.{◌≢◌, ◌↔◌, ◌⊎◌, inl, inr}
pub use mathlib.Core.Bool.{Bool, true, false, not, ◌&&◌, ◌||◌}
pub use mathlib.Core.Option.{Option, none, some}
pub use mathlib.Core.List.{List, [], ◌∷◌, ◌++◌, map}
pub use native.Mathlib.Omega.{arith}
unfoldable pub use Chars.{is_space, is_digit, strip, lower}
