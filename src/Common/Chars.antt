-- ===== src/Common/Chars.antt =====
-- `str.strip` and `str.lower`, as far as the proxy uses them.
use mathlib.Core.List.{reverse}
use mathlib.Core.Bool.{Bool, ◌&&◌, ◌||◌}
use mathlib.Core.List.{[], ◌∷◌, map}
use Prim.Native.Nat.{ℕ, ◌+◌}
use oig_proxy.Common.Tests.{leb, nat_beq, if◌then◌else◌}
use oig_proxy.Common.Texts.{Text}

abbrev within : ℕ → ℕ → ℕ → Bool
within lo hi c = leb lo c && leb c hi

-- The code points that `str.isspace` accepts.
abbrev pub is_space : ℕ → Bool
is_space c =
    within 9 13 c
    || within 28 32 c
    || nat_beq c 133
    || nat_beq c 160
    || nat_beq c 5760
    || within 8192 8202 c
    || within 8232 8233 c
    || nat_beq c 8239
    || nat_beq c 8287
    || nat_beq c 12288

abbrev pub is_digit : ℕ → Bool
is_digit c = within b'0' b'9' c

abbrev lstrip : Text → Text
lstrip [] = []
lstrip (c ∷ cs) = let rest = lstrip cs in if is_space c then rest else c ∷ cs

unfoldable pub strip : Text → Text
strip s = reverse (lstrip (reverse (lstrip s)))

-- Only the letters of ASCII change. No other letter lowers into a text of ASCII letters without
-- `k`, and the program compares a lowered text with such texts only.
abbrev lower_code : ℕ → ℕ
lower_code c = if within b'A' b'Z' c then c + 32 else c

unfoldable pub lower : Text → Text
lower = map lower_code
