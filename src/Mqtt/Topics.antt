-- ===== src/Mqtt/Topics.antt =====
-- mqtt/client.py: `_topic_matches`, over the parts of a subscription and of a topic.
use oig_proxy.Common.{
  ◌≡◌, ◌≢◌, ◌↔◌, refl, subst, arith, inl, inr, Bool, true, false, List, [], ◌∷◌, Text, ◌==◌,
  text_eq, text_beq_iff, Bool-cases, if◌then◌else◌, Option, none, some,
}
use oig_proxy.Common.Dict.{Dict}
use oig_proxy.Handler.{split_path}

abbrev pub hash : Text
hash = b'#' ∷ []

abbrev pub plus : Text
plus = b'+' ∷ []

-- `s.split("/")`
unfoldable pub parts : Text → List Text
unfolding split_path
parts s = let (p, ps) = split_path s in p ∷ ps

-- The loop behind the last part of the topic, where the lengths of the two differ for good.
unfoldable pub past_end : List Text → Bool
past_end [] = false
past_end (s ∷ ss) =
    let rest = past_end ss in if s == hash then true else if s == plus then rest else false

-- The loop over the parts of the subscription, and the comparison of the lengths behind it.
unfoldable pub match_parts : List Text → List Text → Bool
unfolding past_end
match_parts [] [] = true
match_parts [] (t ∷ ts) = false
match_parts (s ∷ ss) [] = past_end (s ∷ ss)
match_parts (s ∷ ss) (t ∷ ts) =
    let rest = match_parts ss ts in
    if s == hash then true else if s == plus then rest else if s == t then rest else false

unfoldable pub topic_matches : Text → Text → Bool
unfolding match_parts parts
topic_matches subscription topic =
    if subscription == topic then true else match_parts (parts subscription) (parts topic)

-- `_on_message`: the callback of the first subscription that fits. What the callback raises is
-- logged.
unfoldable pub callback_of : {C : Type 0} → Text → Dict Text C → Option C
unfolding topic_matches
callback_of topic [] = none
callback_of topic ((s, callback) ∷ subscriptions) =
    let rest = callback_of topic subscriptions in
    if topic_matches s topic then some callback else rest

-- The wildcards of MQTT: `+` stands for one level, and a last `#` for the level above it and all
-- that is below.
pub data Matches : List Text → List Text → Type 0 where
  ends : Matches [] []
  below : {s : Text} {ts : List Text} → s ≡ hash → Matches (s ∷ []) ts
  any : {s t : Text} {ss ts : List Text} → s ≡ plus → Matches ss ts → Matches (s ∷ ss) (t ∷ ts)
  level : {s t : Text} {ss ts : List Text} → s ≡ t → Matches ss ts → Matches (s ∷ ss) (t ∷ ts)

-- A `#` stands last, and no `+` directly before it.
abbrev pub IsPlain : List Text → Type 0
IsPlain [] = Unit {0}
IsPlain (s ∷ []) = Unit {0}
IsPlain (s ∷ s' ∷ ss) = (s ≢ hash) × (s ≡ plus → s' ≢ hash) × IsPlain (s' ∷ ss)

match_parts-Matches : (ss ts : List Text) → Matches ss ts → match_parts ss ts ≡ true
unfolding match_parts past_end
match_parts-Matches [] [] ends = refl
match_parts-Matches [] (t ∷ ts) m = elim m [ ]
match_parts-Matches (s ∷ s' ∷ ss) [] m = elim m [ ]
match_parts-Matches (s ∷ []) [] (below e) = ground (arith, text_beq_iff s hash)
match_parts-Matches (s ∷ []) (t ∷ ts) (below e) = ground (arith, text_beq_iff s hash)
match_parts-Matches (s ∷ ss) (t ∷ ts) (any e m) =
    ground (arith, text_beq_iff s plus, match_parts-Matches ss ts m)
match_parts-Matches (s ∷ ss) (t ∷ ts) (level e m) =
    ground (arith, text_beq_iff s t, match_parts-Matches ss ts m)

-- Behind a `+` of a plain filter the loop finds no `#`.
past_end-IsPlain : (s : Text) (ss : List Text) → IsPlain (s ∷ ss) → s ≡ plus → past_end ss ≡ false
unfolding past_end
past_end-IsPlain s [] p e = refl
past_end-IsPlain s (s' ∷ ss) (n, k, p) e = elim (Bool-cases (s' == plus)) [
  | inl q ↦
      ground
        (arith, text_beq_iff s' hash, k e, past_end-IsPlain s' ss p ((text_beq_iff s' plus).0 q))
  | inr q ↦ ground (arith, text_beq_iff s' hash, k e)
]

IsPlain-tail : (s : Text) (ss : List Text) → IsPlain (s ∷ ss) → IsPlain ss
IsPlain-tail s [] p = tt
IsPlain-tail s (s' ∷ ss) (n, k, p) = p

below_last : (s : Text) (ss ts : List Text) → IsPlain (s ∷ ss) → s ≡ hash → Matches (s ∷ ss) ts
below_last s [] ts p e = below e
below_last s (s' ∷ ss) ts (n, k, p) e = absurd (n e)

Matches-match_parts : (ss ts : List Text) → IsPlain ss → match_parts ss ts ≡ true → Matches ss ts
unfolding match_parts
Matches-match_parts [] [] p e = ends
Matches-match_parts [] (t ∷ ts) p e = cc
Matches-match_parts (s ∷ ss) [] p e = elim (Bool-cases (s == hash)) [
  | inl h ↦ below_last s ss [] p ((text_beq_iff s hash).0 h)
  | inr n ↦ elim (Bool-cases (s == plus)) [
    | inl q ↦ absurd (
        unfold past_end in
        ground (arith, n, q, past_end-IsPlain s ss p ((text_beq_iff s plus).0 q)))
    | inr q ↦ absurd (unfold past_end in ground (arith, n, q))
  ]
]
Matches-match_parts (s ∷ ss) (t ∷ ts) p e = elim (Bool-cases (s == hash)) [
  | inl h ↦ below_last s ss (t ∷ ts) p ((text_beq_iff s hash).0 h)
  | inr n ↦ elim (Bool-cases (s == plus)) [
    | inl q ↦
        any ((text_beq_iff s plus).0 q)
          (Matches-match_parts ss ts (IsPlain-tail s ss p) (ground (arith, n, q)))
    | inr q ↦ elim (Bool-cases (s == t)) [
      | inl f ↦
          level ((text_beq_iff s t).0 f)
            (Matches-match_parts ss ts (IsPlain-tail s ss p) (ground (arith, n, q, f)))
      | inr f ↦ absurd (ground (arith, n, q, f))
    ]
  ]
]

reflexive : (ts : List Text) → Matches ts ts
reflexive [] = ends
reflexive (t ∷ ts) = level refl (reflexive ts)

-- For a subscription whose `#` stands last and not directly behind a `+`: the client takes a topic
-- for one of the subscription's exactly when the wildcards of MQTT make them fit.
pub topic_matches-iff-Matches :
    (subscription topic : Text)
    → IsPlain (parts subscription)
    → (topic_matches subscription topic ≡ true) ↔ Matches (parts subscription) (parts topic)
unfolding topic_matches
topic_matches-iff-Matches subscription topic plain = elim (Bool-cases (subscription == topic)) [
  | inl same ↦ (
    λ _.
        subst (λ (t : Text). Matches (parts subscription) (parts t))
          ((text_beq_iff subscription topic).0 same) (reflexive (parts subscription)),
    λ _. rw same,
  )
  | inr other ↦ (
    λ e. Matches-match_parts _ _ plain (ground (arith, other, e)),
    λ m. rw other (match_parts-Matches _ _ m),
  )
]
