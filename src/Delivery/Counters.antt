-- ===== src/Delivery/Counters.antt =====
-- `observe_id_set`, `next_id_set` and their like for message ids.
use oig_proxy.Common.{
  ℕ, ◌+◌, ◌-◌, inl, inr, Bool-cases, Holds-mono, ◌≡◌, refl, true, false, ◌==◌, nat_eq, Holds,
  Option, none, some, List, [], ◌∷◌, arith, if◌then◌else◌,
}
use oig_proxy.Common.Decimal.{ℤ, pos, negsuc, lt_int, lt_int-asym, lt_int-trans_not}
use oig_proxy.Delivery.State.{Delivery}

-- n + 1
unfoldable pub suc_int : ℤ → ℤ
suc_int (pos n) = pos (n + 1)
suc_int (negsuc n) = if n == 0 then pos 0 else negsuc (n - 1)

-- the larger of what was seen and what is observed
unfoldable pub observe : Option ℤ → Option ℤ → Option ℤ
observe none seen = seen
observe (some n) none = some n
observe (some n) (some m) = if lt_int m n then some n else some m

-- at the reading `epoch` of the clock in seconds
raised : ℕ → Option ℤ → ℤ
raised epoch none = pos epoch
raised epoch (some n) = if lt_int n (pos epoch) then pos epoch else n

following : ℕ → Option ℤ → ℤ
unfolding suc_int
following random none = pos (random + 14000000)
following random (some n) = suc_int n

module _ {F : Type 0} where
  unfoldable pub observe_id_set : Option ℤ → Delivery F → Delivery F
  unfolding observe
  observe_id_set id d = record d { last_seen_id_set = observe id d.last_seen_id_set }

  unfoldable pub observe_msg_id : Option ℤ → Delivery F → Delivery F
  unfolding observe
  observe_msg_id id d = record d { last_msg_id = observe id d.last_msg_id }

  unfoldable pub next_id_set : ℕ → Delivery F → Delivery F × ℤ
  unfolding raised suc_int
  next_id_set epoch d =
      let id = suc_int (raised epoch d.last_seen_id_set) in
      (record d { last_seen_id_set = some id }, id)

  unfoldable pub next_msg_id : ℕ → Delivery F → Delivery F × ℤ
  unfolding following
  next_msg_id random d =
      let id = following random d.last_msg_id in (record d { last_msg_id = some id }, id)

-- `n` is at most the largest id that was seen.
abbrev AtMost : ℤ → Option ℤ → Type 0
AtMost n none = ⊥
AtMost n (some m) = lt_int m n ≡ false

AtMost-observe : (n : ℤ) (seen : Option ℤ) → AtMost n (observe (some n) seen)
unfolding observe
AtMost-observe (pos n) none = ground arith
AtMost-observe (negsuc n) none = ground arith
AtMost-observe (pos n) (some (pos m)) = ground arith
AtMost-observe (pos n) (some (negsuc m)) = ground arith
AtMost-observe (negsuc n) (some (pos m)) = ground arith
AtMost-observe (negsuc n) (some (negsuc m)) = ground arith

AtMost-observe_later : (k : ℤ) (n seen : Option ℤ) → AtMost k seen → AtMost k (observe n seen)
unfolding observe
AtMost-observe_later k none seen h = h
AtMost-observe_later k (some n) none h = absurd h
AtMost-observe_later k (some n) (some m) h = elim (Bool-cases (lt_int m n)) [
  | inl e ↦ rw e (lt_int-trans_not k m n h (lt_int-asym m n e))
  | inr e ↦ rw e h
]

AtMost-next :
    (epoch : ℕ) (n : ℤ) (seen : Option ℤ)
    → AtMost n seen
    → lt_int n (suc_int (raised epoch seen)) ≡ true
unfolding suc_int raised
AtMost-next epoch n none h = absurd h
AtMost-next epoch (pos n) (some (pos m)) h = ground arith
AtMost-next epoch (pos n) (some (negsuc m)) h = absurd (ground arith)
AtMost-next epoch (negsuc n) (some (pos m)) h = ground arith
AtMost-next epoch (negsuc n) (some (negsuc m)) h = ground arith

clock-next : (epoch : ℕ) (seen : Option ℤ) → lt_int (pos epoch) (suc_int (raised epoch seen)) ≡ true
unfolding suc_int raised
clock-next epoch none = ground arith
clock-next epoch (some (pos m)) = ground arith
clock-next epoch (some (negsuc m)) = ground arith

AtMost-self : (n : ℤ) (seen : Option ℤ) → seen ≡ some n → AtMost n seen
AtMost-self n none e = absurd (ground arith)
AtMost-self (pos n) (some m) e = ground arith
AtMost-self (negsuc n) (some m) e = ground arith

-- The id, if there is one, is smaller.
abbrev pub IsBelow : Option ℤ → ℤ → Type 0
IsBelow none id = Unit
IsBelow (some n) id = lt_int n id ≡ true

module _ {F : Type 0} where
  -- the observation of several ids, the first of the list last
  abbrev pub observe_all : List ℤ → Delivery F → Delivery F
  unfolding observe_id_set
  observe_all [] d = d
  observe_all (n ∷ ns) d = observe_id_set (some n) (observe_all ns d)

  AtMost-observe_all_before :
      (k : ℤ) (ns : List ℤ) (d : Delivery F)
      → AtMost k d.last_seen_id_set
      → AtMost k (observe_all ns d).last_seen_id_set
  unfolding observe_id_set
  AtMost-observe_all_before k [] d h = h
  AtMost-observe_all_before k (n ∷ ns) d h =
      AtMost-observe_later k (some n) (observe_all ns d).last_seen_id_set
        (AtMost-observe_all_before k ns d h)

  AtMost-observe_all :
      (ns : List ℤ) (d : Delivery F) → Holds (λ n. AtMost n (observe_all ns d).last_seen_id_set) ns
  unfolding observe_id_set
  AtMost-observe_all [] d = tt
  AtMost-observe_all (n ∷ ns) d = (
    AtMost-observe n (observe_all ns d).last_seen_id_set,
    Holds-mono (λ k. AtMost-observe_later k (some n) (observe_all ns d).last_seen_id_set) ns
        (AtMost-observe_all ns d),
  )

  IsBelow-seen :
      (epoch : ℕ) (ns : List ℤ) (d : Delivery F) (before : Option ℤ)
      → d.last_seen_id_set ≡ before
      → IsBelow before (suc_int (raised epoch (observe_all ns d).last_seen_id_set))
  IsBelow-seen epoch ns d none e = tt
  IsBelow-seen epoch ns d (some n) e =
      AtMost-next epoch n (observe_all ns d).last_seen_id_set
        (AtMost-observe_all_before n ns d (AtMost-self n d.last_seen_id_set e))

  -- However many ids were observed, and whatever was given out before, the next id is greater
  -- than each of them and than the clock, and it is the largest id seen from then on.
  pub next_id_set-fresh :
      (epoch : ℕ) (ns : List ℤ) (d : Delivery F)
      → let (d', id) = next_id_set epoch (observe_all ns d) in
        Holds (λ n. lt_int n id ≡ true) ns
        × (lt_int (pos epoch) id ≡ true)
        × IsBelow d.last_seen_id_set id
        × (d'.last_seen_id_set ≡ some id)
  unfolding next_id_set
  next_id_set-fresh epoch ns d =
      let seen = (observe_all ns d).last_seen_id_set in
      (
        Holds-mono (λ n. AtMost-next epoch n seen) ns (AtMost-observe_all ns d),
        clock-next epoch seen,
        IsBelow-seen epoch ns d d.last_seen_id_set refl,
        refl,
      )
