-- ===== src/Common/Decimal.antt =====
-- Integers over the native numbers, and their decimal texts (`str`, `:05d`).
use Prim.Native.Nat.{ℕ, zero, suc, ◌+◌, ◌-◌, ◌/◌, ◌%◌}
use mathlib.Core.Bool.{Bool, true, false}
use mathlib.Core.Path.{◌≡◌}
use native.Mathlib.Omega.{arith}
use mathlib.Core.List.{[], ◌∷◌, ◌++◌}
use oig_proxy.Common.Tests.{ltb, if◌then◌else◌}
use oig_proxy.Common.Texts.{Text}
use oig_proxy.Common.Lists.{length}

-- `negsuc n` is -(n + 1).
pub data ℤ : Type 0 where
  pos : ℕ → ℤ
  negsuc : ℕ → ℤ

-- a < b
abbrev pub lt_int : ℤ → ℤ → Bool
lt_int (pos a) (pos b) = ltb a b
lt_int (pos a) (negsuc b) = false
lt_int (negsuc a) (pos b) = true
lt_int (negsuc a) (negsuc b) = ltb b a

-- The digits of a number, on fuel that its value bounds.
unfoldable pub show_digits : ℕ → ℕ → Text
show_digits zero n = (48 + n % 10) ∷ []
show_digits (suc f) n =
    let rest = show_digits f (n / 10) in
    if ltb n 10 then (48 + n) ∷ [] else rest ++ (48 + n % 10) ∷ []

unfoldable pub show_nat : ℕ → Text
unfolding show_digits
show_nat n = show_digits n n

unfoldable pub show_int : ℤ → Text
unfolding show_nat
show_int (pos n) = show_nat n
show_int (negsuc n) = b'-' ∷ show_nat (n + 1)

unfoldable pub zeros : ℕ → Text
zeros zero = []
zeros (suc n) = b'0' ∷ zeros n

-- `f"{n:0{width}d}"`
unfoldable pub pad : ℕ → ℕ → Text
unfolding show_nat zeros
pad width n = let s = show_nat n in zeros (width - length s) ++ s

pub lt_int-trans_not : (a b c : ℤ) → lt_int b a ≡ false → lt_int c b ≡ false → lt_int c a ≡ false
lt_int-trans_not (pos a) (pos b) (pos c) h k = ground arith
lt_int-trans_not (pos a) (pos b) (negsuc c) h k = ground arith
lt_int-trans_not (pos a) (negsuc b) c h k = absurd (ground arith)
lt_int-trans_not (negsuc a) (pos b) (pos c) h k = ground arith
lt_int-trans_not (negsuc a) (pos b) (negsuc c) h k = absurd (ground arith)
lt_int-trans_not (negsuc a) (negsuc b) (pos c) h k = ground arith
lt_int-trans_not (negsuc a) (negsuc b) (negsuc c) h k = ground arith

pub lt_int-asym : (a b : ℤ) → lt_int a b ≡ true → lt_int b a ≡ false
lt_int-asym (pos a) (pos b) h = ground arith
lt_int-asym (pos a) (negsuc b) h = absurd (ground arith)
lt_int-asym (negsuc a) (pos b) h = ground arith
lt_int-asym (negsuc a) (negsuc b) h = ground arith
