-- ===== src/Telemetry/Bounded.antt =====
-- telemetry/client.py: the buffer holds no more messages than it is to hold, each once.
use oig_proxy.Common.{
  ℕ, zero, suc, ◌<◌, ◌≤◌, ◌≡◌, refl, arith, inl, inr, Bool, true, false, List, [], ◌∷◌, ◌++◌, any,
  nat_beq, length, take, Bool-cases, if◌then◌else◌, Holds,
}
use oig_proxy.Telemetry.Buffer.{Row, TelemetryBuffer, keep_rows, has_id, row_ids}

-- The number is not the id of a row.
abbrev pub IsAbsent : ℕ → List Row → Type 0
IsAbsent i rs = Holds (λ r. nat_beq r.id i ≡ false) rs

-- No two rows have the same id, and all ids lie below the next one.
abbrev pub HasDistinct : List Row → Type 0
HasDistinct [] = Unit {0}
HasDistinct (r ∷ rs) = IsAbsent r.id rs × HasDistinct rs

pub record IsBuffer (b : TelemetryBuffer) : Type 0 where
  pub distinct : HasDistinct b.rows
  pub below : Holds (λ r. r.id < b.next_id) b.rows

pub keep_rows-Holds :
    (P : Row → Type 0) (p : Row → Bool) (rs : List Row) → Holds P rs → Holds P (keep_rows p rs)
unfolding keep_rows
keep_rows-Holds P p [] h = tt
keep_rows-Holds P p (r ∷ rs) (h, t) = elim (Bool-cases (p r)) [
  | inl e ↦ rw e (h, keep_rows-Holds P p rs t)
  | inr e ↦ rw e (keep_rows-Holds P p rs t)
]

pub keep_rows-HasDistinct :
    (p : Row → Bool) (rs : List Row) → HasDistinct rs → HasDistinct (keep_rows p rs)
unfolding keep_rows
keep_rows-HasDistinct p [] d = tt
keep_rows-HasDistinct p (r ∷ rs) (a, d) = elim (Bool-cases (p r)) [
  | inl e ↦
      rw e (keep_rows-Holds (λ s. nat_beq s.id r.id ≡ false) p rs a, keep_rows-HasDistinct p rs d)
  | inr e ↦ rw e (keep_rows-HasDistinct p rs d)
]

-- A list of ids without one of them.
without : ℕ → List ℕ → List ℕ
without x [] = []
without x (i ∷ ids) = let rest = without x ids in if nat_beq i x then rest else i ∷ rest

length-without : (x : ℕ) (ids : List ℕ) → length (without x ids) ≤ length ids
unfolding without
length-without x [] = omega arith
length-without x (i ∷ ids) = ground (arith, length-without x ids)

length-without_lt :
    (x : ℕ) (ids : List ℕ) → any (λ i. nat_beq i x) ids ≡ true → length (without x ids) < length ids
unfolding without
length-without_lt x [] m = absurd (ground arith)
length-without_lt x (i ∷ ids) m = elim (Bool-cases (nat_beq i x)) [
  | inl e ↦ rw e (omega (arith, length-without x ids))
  | inr e ↦ rw e (omega (arith, length-without_lt x ids (rw e at m)))
]

any-without :
    (x y : ℕ) (ids : List ℕ)
    → nat_beq y x ≡ false
    → any (λ i. nat_beq i y) (without x ids) ≡ any (λ i. nat_beq i y) ids
unfolding without
any-without x y [] n = refl
any-without x y (i ∷ ids) n = ground (arith, any-without x y ids n)

keep_rows-without :
    (x : ℕ) (ids : List ℕ) (rs : List Row)
    → IsAbsent x rs
    → keep_rows (has_id (without x ids)) rs ≡ keep_rows (has_id ids) rs
unfolding keep_rows
keep_rows-without x ids [] a = refl
keep_rows-without x ids (r ∷ rs) (n, a) =
    rw (any-without x r.id ids n, keep_rows-without x ids rs a)

-- Rows with distinct ids, of which those with an id of a list are kept, are no more than the list.
pub length-keep_rows :
    (ids : List ℕ) (rs : List Row)
    → HasDistinct rs
    → length (keep_rows (has_id ids) rs) ≤ length ids
unfolding keep_rows
length-keep_rows ids [] d = omega arith
length-keep_rows ids (r ∷ rs) (a, d) = elim (Bool-cases (has_id ids r)) [
  | inl e ↦
      rw (e, ← keep_rows-without r.id ids rs a)
        (omega (arith, length-keep_rows (without r.id ids) rs d, length-without_lt r.id ids e))
  | inr e ↦ rw e (length-keep_rows ids rs d)
]

pub length-take : (n : ℕ) (rs : List Row) → length (row_ids (take n rs)) ≤ n
length-take zero rs = omega arith
length-take (suc n) [] = omega arith
length-take (suc n) (r ∷ rs) = omega (arith, length-take n rs)

pub append-HasDistinct :
    (r : Row) (rs : List Row) → IsAbsent r.id rs → HasDistinct rs → HasDistinct (rs ++ r ∷ [])
append-HasDistinct r [] a d = (tt, tt)
append-HasDistinct r (s ∷ rs) (n, a) (b, d) = (absent rs b, append-HasDistinct r rs a d)
  where
    absent : (ts : List Row) → IsAbsent s.id ts → IsAbsent s.id (ts ++ r ∷ [])
    absent [] h = (ground (arith, n), tt)
    absent (t ∷ ts) (h, k) = (h, absent ts k)

pub below-IsAbsent : (n : ℕ) (rs : List Row) → Holds (λ r. r.id < n) rs → IsAbsent n rs
below-IsAbsent n [] h = tt
below-IsAbsent n (r ∷ rs) (h, k) = (ground (arith, h), below-IsAbsent n rs k)

pub append-below :
    (r : Row) (n : ℕ) (rs : List Row)
    → r.id < n
    → Holds (λ s. s.id < r.id) rs
    → Holds (λ s. s.id < n) (rs ++ r ∷ [])
append-below r n [] l h = (l, tt)
append-below r n (s ∷ rs) l (h, k) = (omega (arith, l, h), append-below r n rs l k)
