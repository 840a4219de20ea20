-- ===== src/Queue/Order.antt =====
-- The order in which the settings of a queue are delivered.
use mathlib.Core.List.{Perm}
use mathlib.Core.List.Perm
use oig_proxy.Common.{
  ℕ, ◌≤◌, ◌≡◌, ◌⊎◌, inl, inr, refl, sym, subst, some, List, [], ◌∷◌, arith, leb, Holds, Text,
  text_eq, pair_eq, Bool-cases,
}
use oig_proxy.Common.Texts.{pair_beq_iff}
use oig_proxy.Common.Dict
use oig_proxy.Common.Dict.{Dict, values, get-put, get-erase}
use oig_proxy.Queue.{TwinSetting, TwinQueue, insert_sorted, sort_settings, get_pending, get}
use oig_proxy.Queue.Laws.{Filed}

module _ {F : Type 0} where
  abbrev InList : TwinSetting F → List (TwinSetting F) → Type 0
  InList s [] = ⊥
  InList s (x ∷ xs) = (s ≡ x) ⊎ InList s xs

  insert_sorted-perm :
      (s : TwinSetting F) (xs : List (TwinSetting F)) → Perm (insert_sorted s xs) (s ∷ xs)
  unfolding insert_sorted
  insert_sorted-perm s [] = Perm.refl (s ∷ [])
  insert_sorted-perm s (x ∷ xs) = elim (Bool-cases (leb s.enqueued_at x.enqueued_at)) [
    | inl e ↦ rw e (Perm.refl (s ∷ x ∷ xs))
    | inr e ↦ rw e (Perm.trans (Perm.cons x (insert_sorted-perm s xs)) (Perm.swap s x xs))
  ]

  sort_settings-perm : (xs : List (TwinSetting F)) → Perm (sort_settings xs) xs
  unfolding sort_settings
  sort_settings-perm [] = Perm.refl []
  sort_settings-perm (s ∷ ss) =
      Perm.trans (insert_sorted-perm s (sort_settings ss)) (Perm.cons s (sort_settings-perm ss))

  abbrev NotEarlier : ℕ → List (TwinSetting F) → Type 0
  NotEarlier n = Holds (λ s. n ≤ s.enqueued_at)

  -- Each setting was enqueued no later than those behind it.
  abbrev pub IsSorted : List (TwinSetting F) → Type 0
  IsSorted [] = Unit
  IsSorted (s ∷ ss) = NotEarlier s.enqueued_at ss × IsSorted ss

  NotEarlier-mono :
      (n m : ℕ) (xs : List (TwinSetting F)) → n ≤ m → NotEarlier m xs → NotEarlier n xs
  NotEarlier-mono n m [] l h = tt
  NotEarlier-mono n m (x ∷ xs) l h = (omega arith, NotEarlier-mono n m xs l h.1)

  insert_sorted-NotEarlier :
      (n : ℕ) (s : TwinSetting F) (xs : List (TwinSetting F))
      → n ≤ s.enqueued_at
      → NotEarlier n xs
      → NotEarlier n (insert_sorted s xs)
  unfolding insert_sorted
  insert_sorted-NotEarlier n s [] l h = (l, tt)
  insert_sorted-NotEarlier n s (x ∷ xs) l h = ground (arith, insert_sorted-NotEarlier n s xs l)

  insert_sorted-IsSorted :
      (s : TwinSetting F) (xs : List (TwinSetting F)) → IsSorted xs → IsSorted (insert_sorted s xs)
  unfolding insert_sorted
  insert_sorted-IsSorted s [] h = (tt, tt)
  insert_sorted-IsSorted s (x ∷ xs) h = ground (
    arith,
    insert_sorted-IsSorted s xs,
    NotEarlier-mono s.enqueued_at x.enqueued_at xs,
    insert_sorted-NotEarlier x.enqueued_at s xs,
  )

  sort_settings-IsSorted : (xs : List (TwinSetting F)) → IsSorted (sort_settings xs)
  unfolding sort_settings
  sort_settings-IsSorted [] = tt
  sort_settings-IsSorted (s ∷ ss) =
      insert_sorted-IsSorted s (sort_settings ss) (sort_settings-IsSorted ss)

  -- The pending settings are those of the queue, each once, the one that was enqueued first in
  -- front.
  get_pending-IsSorted :
      (q : TwinQueue F) → Perm (get_pending q) (values q.queue) × IsSorted (get_pending q)
  unfolding get_pending
  get_pending-IsSorted q =
      (sort_settings-perm (values q.queue), sort_settings-IsSorted (values q.queue))

  insert_sorted-front :
      (s z y : TwinSetting F) (zs ys : List (TwinSetting F))
      → insert_sorted s (z ∷ zs) ≡ y ∷ ys
      → ((y ≡ s) × (s.enqueued_at ≤ z.enqueued_at)) ⊎ ((y ≡ z) × (z.enqueued_at ≤ s.enqueued_at))
  unfolding insert_sorted
  insert_sorted-front s z y zs ys h = elim (Bool-cases (leb s.enqueued_at z.enqueued_at)) [
    | inl e ↦ inl (cc (rw e at h), ground arith)
    | inr e ↦ inr (cc (rw e at h), ground arith)
  ]

  insert_sorted-ne_nil : (s : TwinSetting F) (l : List (TwinSetting F)) → insert_sorted s l ≡ [] → ⊥
  unfolding insert_sorted
  insert_sorted-ne_nil s [] e = ground arith
  insert_sorted-ne_nil s (x ∷ xs) e = ground arith

  -- What stands in front after the sorting is one of the settings, and no other is older.
  IsFront : TwinSetting F → List (TwinSetting F) → Type 0
  IsFront y xs = InList y xs × NotEarlier y.enqueued_at xs

  insert-IsFront :
      (s y : TwinSetting F) (ss l ys : List (TwinSetting F))
      → (l ≡ [] → ss ≡ [])
      → ((z : TwinSetting F) (zs : List (TwinSetting F)) → l ≡ z ∷ zs → IsFront z ss)
      → insert_sorted s l ≡ y ∷ ys
      → IsFront y (s ∷ ss)
  unfolding IsFront insert_sorted
  insert-IsFront s y ss [] ys empty front h =
      let e : y ≡ s = cc h in
      subst (λ v. IsFront v (s ∷ ss)) (sym e) (rw (empty refl) (inl refl, (omega arith, tt)))
  insert-IsFront s y ss (z ∷ zs) ys empty front h =
      let (member, later) = front z zs refl in
      elim (insert_sorted-front s z y zs ys h) [
        | inl (e, le) ↦
            subst (λ v. IsFront v (s ∷ ss)) (sym e)
              (inl refl, (omega arith, NotEarlier-mono s.enqueued_at z.enqueued_at ss le later))
        | inr (e, le) ↦ subst (λ v. IsFront v (s ∷ ss)) (sym e) (inr member, (le, later))
      ]

  sort_settings-nil : (xs : List (TwinSetting F)) → sort_settings xs ≡ [] → xs ≡ []
  unfolding sort_settings
  sort_settings-nil [] h = refl
  sort_settings-nil (s ∷ ss) h = absurd (insert_sorted-ne_nil s (sort_settings ss) h)

  sort_settings-IsFront :
      (xs : List (TwinSetting F)) (y : TwinSetting F) (ys : List (TwinSetting F))
      → sort_settings xs ≡ y ∷ ys
      → IsFront y xs
  unfolding sort_settings
  sort_settings-IsFront [] y ys h = absurd (ground arith)
  sort_settings-IsFront (s ∷ ss) y ys h =
      insert-IsFront s y ss (sort_settings ss) ys (sort_settings-nil ss) (sort_settings-IsFront ss)
        h

  get-InList :
      (s : TwinSetting F) (d : Dict (Text × Text) (TwinSetting F))
      → Filed d
      → InList s (values d)
      → Dict.get (s.table, s.key) d ≡ some s
  unfolding Dict.get
  get-InList s [] h m = absurd m
  get-InList s ((k, x) ∷ d) (e, fresh, h) (inl p) =
      ground (arith, pair_beq_iff k (s.table, s.key), p, e)
  get-InList s ((k, x) ∷ d) (e, fresh, h) (inr m) =
      ground (arith, pair_beq_iff k (s.table, s.key), get-InList s d h m)

  -- The first pending setting is the one that the queue holds under its table and key, and no
  -- setting of the queue was enqueued before it.
  pub get_pending-front :
      (q : TwinQueue F) (s : TwinSetting F) (rest : List (TwinSetting F))
      → Filed q.queue
      → get_pending q ≡ s ∷ rest
      → (get s.table s.key q ≡ some s) × Holds (λ x. s.enqueued_at ≤ x.enqueued_at) (values q.queue)
  unfolding get_pending get IsFront
  get_pending-front q s rest h e =
      let (member, oldest) = sort_settings-IsFront (values q.queue) s rest e in
      (get-InList s q.queue h member, oldest)
