-- ===== src/Frame/RoundTrip.antt =====
-- A frame that was built is parsed to what was built into it.
use oig_proxy.Common.{
  ℕ, zero, suc, ◌+◌, ◌-◌, ◌/◌, ◌%◌, ◌≤◌, ◌≡◌, refl, sym, ap, ◌∙◌, inl, inr, Bool, true, false, some,
  [], ◌∷◌, ◌++◌, arith, ltb, length, length-append, is_digit, codes, ◌==◌, text_eq, text_beq_iff,
  Bool-cases, Holds, if◌then◌else◌,
}
use mathlib.Core.List.{append_assoc}
use oig_proxy.Common.Decimal.{pad, show_digits, show_nat, zeros}
use oig_proxy.Frame.Crc.{Bytes, crc16_modbus}
use oig_proxy.Frame.Match.{after, span}
use oig_proxy.Frame.Build.{
  crc_open, crc_close, frame_open, frame_close, tag_length, crc_length, strip_crc_tag, crc_tag,
  build_frame, rstrip, before_end, parse_frame,
}
use oig_proxy.Frame.Strip.{crc_length-some, strip_from-append}

abbrev AllDigits : Bytes → Type 0
AllDigits = Holds (λ c. is_digit c ≡ true)

AllDigits-append : (s t : Bytes) → AllDigits s → AllDigits t → AllDigits (s ++ t)
AllDigits-append [] t h k = k
AllDigits-append (c ∷ s) t h k = (h.0, AllDigits-append s t h.1 k)

show_digits-AllDigits : (fuel n : ℕ) → AllDigits (show_digits fuel n)
unfolding show_digits
show_digits-AllDigits zero n = ground arith
show_digits-AllDigits (suc f) n = elim (Bool-cases (ltb n 10)) [
  | inl e ↦ ground (arith, e)
  | inr e ↦ rw e (
      AllDigits-append (show_digits f (n / 10)) _ (show_digits-AllDigits f (n / 10)) (ground arith))
]

length-show_digits : (fuel n : ℕ) → 1 ≤ length (show_digits fuel n)
unfolding show_digits
length-show_digits zero n = omega arith
length-show_digits (suc f) n =
    ground (arith, length-append (show_digits f (n / 10)) ((48 + n % 10) ∷ []))

zeros-AllDigits : (n : ℕ) → AllDigits (zeros n)
unfolding zeros
zeros-AllDigits zero = tt
zeros-AllDigits (suc n) = (refl, zeros-AllDigits n)

pad-AllDigits : (w n : ℕ) → AllDigits (pad w n) × (1 ≤ length (pad w n))
unfolding pad show_nat
pad-AllDigits w n =
    let z = zeros (w - length (show_digits n n)) in
    (
      AllDigits-append z (show_digits n n) (zeros-AllDigits _) (show_digits-AllDigits n n),
      omega (arith, length-append z (show_digits n n), length-show_digits n n),
    )

span-AllDigits : (s t : Bytes) → AllDigits s → span is_digit (s ++ b'<' ∷ t) ≡ (s, b'<' ∷ t)
unfolding span
span-AllDigits [] t h = refl
span-AllDigits (c ∷ s) t h = ground (arith, h.0, span-AllDigits s t h.1)

pub after_self : (p s : Bytes) → after p (p ++ s) ≡ some s
unfolding after
after_self [] s = refl
after_self (c ∷ p) s = ground (arith, after_self p s)

rstrip-append : (s t : Bytes) (d : ℕ) (r : Bytes) → rstrip t ≡ d ∷ r → rstrip (s ++ t) ≡ s ++ d ∷ r
unfolding rstrip
rstrip-append [] t d r e = e
rstrip-append (c ∷ []) t d r e = ground (arith, e)
rstrip-append (c ∷ c' ∷ s) t d r e = ground (arith, rstrip-append (c' ∷ s) t d r e)

before_end-append : (p s : Bytes) → before_end p (s ++ p) ≡ some s
unfolding before_end
before_end-append [] [] = refl
before_end-append (c ∷ p) [] = ground (arith, text_beq_iff p p)
before_end-append p (c ∷ s) = elim (Bool-cases (p == c ∷ s ++ p)) [
  | inl e ↦ absurd (omega (arith, ap length ((text_beq_iff p (c ∷ s ++ p)).0 e), length-append s p))
  | inr e ↦ ground (arith, e, before_end-append p s)
]

tag_length-close : (s : Bytes) → 1 ≤ length s → tag_length s crc_close ≡ some (length s + 11)
unfolding tag_length
tag_length-close [] h = absurd (omega (arith, h))
tag_length-close (c ∷ s) h = refl

-- the tag behind its first two bytes
abbrev behind : ℕ → Bytes
behind n = codes "RC>" ++ (pad 5 n ++ crc_close)

crc_length-tag : (n : ℕ) → crc_length (b'<' ∷ b'C' ∷ behind n) ≡ some (length (behind n) + 2)
crc_length-tag n =
    let (digits, long) = pad-AllDigits 5 n in
    crc_length-some (b'<' ∷ b'C' ∷ behind n) (pad 5 n ++ crc_close)
      (after_self crc_open (pad 5 n ++ crc_close))
    ∙ ap (λ q. tag_length q.0 q.1) (span-AllDigits (pad 5 n) (codes "/CRC>") digits)
    ∙ tag_length-close (pad 5 n) long
    ∙ ap some (omega (arith, length-append (pad 5 n) crc_close))

strip_crc_tag-append : (w : Bytes) (n : ℕ) → strip_crc_tag (w ++ crc_tag n) ≡ strip_crc_tag w
unfolding strip_crc_tag crc_tag
strip_crc_tag-append w n = strip_from-append 0 w (behind n) (omega arith) (crc_length-tag n)

parse_frame-some :
    (s rest inner : Bytes)
    → after frame_open (rstrip s) ≡ some rest
    → before_end frame_close rest ≡ some inner
    → parse_frame s ≡ some (strip_crc_tag inner)
unfolding parse_frame
parse_frame-some s rest inner e f = ground (arith, e, f)

parse_frame-wrapped :
    (x line : Bytes)
    → rstrip (frame_close ++ line) ≡ frame_close
    → parse_frame ((frame_open ++ x) ++ (frame_close ++ line)) ≡ some (strip_crc_tag x)
parse_frame-wrapped x line e =
    parse_frame-some ((frame_open ++ x) ++ (frame_close ++ line)) (x ++ frame_close) x
      (ap (after frame_open) (
          rstrip-append (frame_open ++ x) (frame_close ++ line) b'<' (codes "/Frame>") e
          ∙ append_assoc frame_open x frame_close)
        ∙ after_self frame_open (x ++ frame_close))
      (before_end-append frame_close x)

line_of : Bool → Bytes
line_of add_crlf = if add_crlf then 13 ∷ 10 ∷ [] else []

rstrip-close : (add_crlf : Bool) → rstrip (frame_close ++ line_of add_crlf) ≡ frame_close
unfolding rstrip line_of
rstrip-close true = refl
rstrip-close false = refl

build_frame-wrapped :
    (inner : Bytes) (add_crlf : Bool)
    → let w = strip_crc_tag inner in
      build_frame inner add_crlf
      ≡ (frame_open ++ (w ++ crc_tag (crc16_modbus w))) ++ (frame_close ++ line_of add_crlf)
unfolding build_frame line_of
build_frame-wrapped inner add_crlf =
    let w = strip_crc_tag inner in
    let tag = crc_tag (crc16_modbus w) in
    let end_bytes = frame_close ++ line_of add_crlf in
    ap (λ s. frame_open ++ s) (sym (append_assoc w tag end_bytes))
    ∙ sym (append_assoc frame_open (w ++ tag) end_bytes)

-- Parsing a frame that was built from an inner text gives back the inner text without its CRC
-- tags, whether the frame ends with a line end or not: the tag that was added is taken off, and
-- so are those that the first removal has joined together.
pub parse_frame-build_frame :
    (inner : Bytes) (add_crlf : Bool)
    → parse_frame (build_frame inner add_crlf) ≡ some (strip_crc_tag (strip_crc_tag inner))
parse_frame-build_frame inner add_crlf =
    let w = strip_crc_tag inner in
    let n = crc16_modbus w in
    ap parse_frame (build_frame-wrapped inner add_crlf)
    ∙ parse_frame-wrapped (w ++ crc_tag n) (line_of add_crlf) (rstrip-close add_crlf)
    ∙ ap some (strip_crc_tag-append w n)
