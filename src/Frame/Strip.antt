-- ===== src/Frame/Strip.antt =====
-- The removal of CRC tags takes the tag at the end and nothing else of what stands before it.
use oig_proxy.Common.{
  ℕ, zero, suc, ◌+◌, ◌-◌, ◌≤◌, ◌≡◌, refl, sym, ap, ◌∙◌, inl, inr, false, Option, none, some, [],
  ◌∷◌, ◌++◌, arith, nat_beq, length, length-append, is_digit, codes, Option-cases, Holds,
}
use oig_proxy.Frame.Crc.{Bytes}
use oig_proxy.Frame.Match.{after, span}
use oig_proxy.Frame.Build.{crc_open, crc_close, tag_length, crc_length, strip_from}
use oig_proxy.Frame.Stream.{after-some}

append_to : Bytes → Option Bytes → Option Bytes
append_to t none = none
append_to t (some r) = some (r ++ t)

after-append :
    (p x t : Bytes)
    → Holds (λ c. nat_beq c b'<' ≡ false) p
    → after p (x ++ b'<' ∷ t) ≡ append_to (b'<' ∷ t) (after p x)
unfolding after append_to
after-append [] x t h = refl
after-append (c ∷ p) [] t h = ground (arith, h.0)
after-append (c ∷ p) (d ∷ x) t h = ground (arith, after-append p x t h.1)

span-append :
    (x t : Bytes)
    → (span is_digit (x ++ b'<' ∷ t)) ≡ ((span is_digit x).0, (span is_digit x).1 ++ b'<' ∷ t)
unfolding span
span-append [] t = refl
span-append (c ∷ x) t = ground (arith, span-append x t)

span-parts : (x : Bytes) → x ≡ (span is_digit x).0 ++ (span is_digit x).1
unfolding span
span-parts [] = refl
span-parts (c ∷ x) = ground (arith, span-parts x)

-- The closing tag is not found where a tag begins that is no closing tag.
after_close :
    (x t : Bytes)
    → after crc_close (x ++ b'<' ∷ b'C' ∷ t) ≡ append_to (b'<' ∷ b'C' ∷ t) (after crc_close x)
unfolding after append_to
after_close [] t = refl
after_close (c ∷ x) t =
    ground
      (arith, after-append (codes "/CRC>") x (b'C' ∷ t) (refl, (refl, (refl, (refl, (refl, tt))))))

after_open :
    (c : ℕ) (x t : Bytes)
    → after crc_open (c ∷ x ++ b'<' ∷ t) ≡ append_to (b'<' ∷ t) (after crc_open (c ∷ x))
unfolding after append_to
after_open c x t =
    ground (arith, after-append (codes "CRC>") x t (refl, (refl, (refl, (refl, tt)))))

tag_length-append :
    (run tail t : Bytes) → tag_length run (tail ++ b'<' ∷ b'C' ∷ t) ≡ tag_length run tail
unfolding tag_length append_to
tag_length-append [] tail t = refl
tag_length-append (c ∷ run) tail t = elim (Option-cases (after crc_close tail)) [
  | inl e ↦ ground (arith, e, after_close tail t)
  | inr (r, e) ↦ ground (arith, e, after_close tail t)
]

crc_length-none : (s : Bytes) → after crc_open s ≡ none → crc_length s ≡ none
unfolding crc_length
crc_length-none s e = rw e refl

pub crc_length-some :
    (s rest : Bytes)
    → after crc_open s ≡ some rest
    → crc_length s ≡ tag_length (span is_digit rest).0 (span is_digit rest).1
unfolding crc_length
crc_length-some s rest e = rw e refl

crc_length-append :
    (c : ℕ) (x t : Bytes) → crc_length (c ∷ x ++ b'<' ∷ b'C' ∷ t) ≡ crc_length (c ∷ x)
unfolding append_to
crc_length-append c x t = elim (Option-cases (after crc_open (c ∷ x))) [
  | inl e ↦
      crc_length-none (c ∷ x ++ b'<' ∷ b'C' ∷ t) (after_open c x (b'C' ∷ t) ∙ (rw e refl))
      ∙ sym (crc_length-none (c ∷ x) e)
  | inr (r, e) ↦
      crc_length-some (c ∷ x ++ b'<' ∷ b'C' ∷ t) (r ++ b'<' ∷ b'C' ∷ t)
        (after_open c x (b'C' ∷ t) ∙ (rw e refl))
      ∙ ap (λ q. tag_length q.0 q.1) (span-append r (b'C' ∷ t))
      ∙ tag_length-append (span is_digit r).0 (span is_digit r).1 t
      ∙ sym (crc_length-some (c ∷ x) r e)
]

tag_length-le :
    (run tail : Bytes) (n : ℕ)
    → tag_length run tail ≡ some n
    → (n ≡ length run + 11) × (6 ≤ length tail)
unfolding tag_length
tag_length-le [] tail n h = absurd (ground arith)
tag_length-le (c ∷ run) tail n h = elim (Option-cases (after crc_close tail)) [
  | inl e ↦ absurd (ground (arith, e))
  | inr (r, e) ↦ (
    ground (arith, e),
    omega (arith, ap length (after-some crc_close tail r e), length-append crc_close r),
  )
]

crc_length-le : (s : Bytes) (n : ℕ) → crc_length s ≡ some n → n ≤ length s
crc_length-le s n h = elim (Option-cases (after crc_open s)) [
  | inl e ↦ absurd (ground (arith, crc_length-none s e))
  | inr (r, e) ↦
      let run = (span is_digit r).0 in
      let tail = (span is_digit r).1 in
      let (exact, closes) = tag_length-le run tail n (sym (crc_length-some s r e) ∙ h) in
      omega (
        arith,
        exact,
        closes,
        ap length (after-some crc_open s r e),
        length-append crc_open r,
        ap length (span-parts r),
        length-append run tail,
      )
]

strip_from-all : (s : Bytes) → strip_from (length s) s ≡ []
unfolding strip_from
strip_from-all [] = refl
strip_from-all (c ∷ s) = strip_from-all s

strip_from-none :
    (c : ℕ) (s : Bytes) → crc_length (c ∷ s) ≡ none → strip_from 0 (c ∷ s) ≡ c ∷ strip_from 0 s
unfolding strip_from
strip_from-none c s e = ground (arith, e)

strip_from-some :
    (c : ℕ) (s : Bytes) (n : ℕ)
    → crc_length (c ∷ s) ≡ some n
    → strip_from 0 (c ∷ s) ≡ strip_from (n - 1) s
unfolding strip_from
strip_from-some c s n e = ground (arith, e)

strip_from-skip : (k c : ℕ) (s : Bytes) → strip_from (suc k) (c ∷ s) ≡ strip_from k s
unfolding strip_from
strip_from-skip k c s = refl

strip_from-nil : (k : ℕ) → strip_from k [] ≡ []
unfolding strip_from
strip_from-nil k = refl

-- What stands in front is stripped as if nothing followed, if what follows is one tag.
pub strip_from-append :
    (k : ℕ) (x t : Bytes)
    → k ≤ length x
    → crc_length (b'<' ∷ b'C' ∷ t) ≡ some (length t + 2)
    → strip_from k (x ++ b'<' ∷ b'C' ∷ t) ≡ strip_from k x
strip_from-append zero [] t le one =
    strip_from-some b'<' (b'C' ∷ t) (length t + 2) one
    ∙ ap (λ n. strip_from n (b'C' ∷ t)) (omega arith)
    ∙ strip_from-all (b'C' ∷ t)
    ∙ sym (strip_from-nil 0)
strip_from-append (suc k) [] t le one = absurd (omega (arith, le))
strip_from-append (suc k) (c ∷ x) t le one =
    strip_from-skip k c (x ++ b'<' ∷ b'C' ∷ t)
    ∙ strip_from-append k x t (omega (arith, le)) one
    ∙ sym (strip_from-skip k c x)
strip_from-append zero (c ∷ x) t le one = elim (Option-cases (crc_length (c ∷ x))) [
  | inl e ↦
      strip_from-none c (x ++ b'<' ∷ b'C' ∷ t) (crc_length-append c x t ∙ e)
      ∙ ap (λ s. c ∷ s) (strip_from-append 0 x t (omega arith) one)
      ∙ sym (strip_from-none c x e)
  | inr (n, e) ↦
      strip_from-some c (x ++ b'<' ∷ b'C' ∷ t) n (crc_length-append c x t ∙ e)
      ∙ strip_from-append (n - 1) x t (omega (arith, crc_length-le (c ∷ x) n e)) one
      ∙ sym (strip_from-some c x n e)
]
