-- ===== src/Audit/Overshoot.antt =====
-- A cut inside a character makes the truncated text longer than the limit.
use oig_proxy.Common.{ℕ, ◌+◌, ◌-◌, ◌≤◌, ◌<◌, ◌≡◌, sym, [], ◌∷◌, ◌++◌, arith, length, Holds, Text}
use oig_proxy.Audit.Limits.{max_raw_text_bytes, encoded_length, truncate_bytes, truncate_raw_text}

module _ (c : ℕ) (wide : 0x10000 ≤ c) where
  encoded_length-ascii :
      (s : Text) → Holds (λ x. x < 0x80) s → encoded_length (s ++ c ∷ []) ≡ length s + 4
  unfolding encoded_length
  encoded_length-ascii [] h = ground arith
  encoded_length-ascii (x ∷ s) h = ground (arith, encoded_length-ascii s)

  truncate_bytes-ascii :
      (s : Text) (limit : ℕ)
      → Holds (λ x. x < 0x80) s
      → limit ≡ length s + 1
      → encoded_length (truncate_bytes limit (s ++ c ∷ [])) ≡ limit + 2
  unfolding encoded_length truncate_bytes
  truncate_bytes-ascii [] limit h e = ground arith
  truncate_bytes-ascii (x ∷ s) limit h e = ground (arith, truncate_bytes-ascii s (limit - 1))

  -- A text of one-byte characters, one fewer than the limit, followed by a four-byte character
  -- is cut to a text of two bytes more than the limit.
  truncate_raw_text-overshoots :
      (s : Text)
      → Holds (λ x. x < 0x80) s
      → length s + 1 ≡ max_raw_text_bytes
      → encoded_length (truncate_raw_text (s ++ c ∷ [])).0 ≡ max_raw_text_bytes + 2
  unfolding truncate_raw_text
  truncate_raw_text-overshoots s h e =
      ground (arith, encoded_length-ascii s h, truncate_bytes-ascii s max_raw_text_bytes h (sym e))
