-- ===== src/Tests.antt =====
-- Concrete values, and the theorems applied to them.
pub mod Modes
pub mod Settings
pub mod Twin
pub mod Broker
pub mod Uplink
pub mod Sensing
pub mod Frames
pub mod Names
pub mod Control
pub mod Proxy
pub mod Peers
pub mod Reports
pub mod Times
use oig_proxy.Common.{
  ℕ, ◌≡◌, refl, Bool, true, false, Option, none, some, List, [], ◌∷◌, codes, Text,
}
use oig_proxy.Common.Decimal.{ℤ, pos, lt_int, show_int}
use oig_proxy.Values.{Floats, ExactComparison}
use oig_proxy.Audit.Records.{Draw}
use oig_proxy.Queue.{Draws}

-- Floats that are all integral, and a parser that reads no text.
abbrev pub whole : Floats
whole = record {
  Float = ℤ;
  of_int = λ n. n;
  parse = λ s. none;
  is_integer = λ x. true;
  to_int = λ x. x;
  below = lt_int;
  above = λ x n. lt_int n x;
  show = show_int;
}

pub whole-ExactComparison : ExactComparison whole
whole-ExactComparison = record { below_int = λ x n e. refl; above_int = λ x n e. refl }

abbrev pub supply : ℕ → Draw
supply n = record { now = n; random = n }

abbrev pub draws : ℕ → Draws
draws n = record { audit = supply n; enqueued_at = n; msg = n; epoch = n }
