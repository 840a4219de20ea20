-- ===== src/Frame/Fields.antt =====
-- The fields that are written into a text are the ones that are read from it.
use mathlib.Core.List.{append_assoc}
use oig_proxy.Common.{
  ℕ, ◌+◌, ◌*◌, ◌≤◌, ◌≡◌, refl, sym, ap, ◌∙◌, Bool, true, false, some, List, [], ◌∷◌, ◌++◌, arith,
  length, length-append, Text, Holds,
}
use oig_proxy.Frame.Match.{after, span, not_open}
use oig_proxy.Frame.Parse.{is_word, match_close, match_named, match_element, elements}
use oig_proxy.Frame.RoundTrip.{after_self}
use oig_proxy.Frame.Setting.{element}

-- A name of letters, digits and underscores, and a value with no `<` in it.
pub record IsField (f : Text × Text) : Type 0 where
  pub named : 1 ≤ length f.0
  pub word : Holds (λ c. is_word c ≡ true) f.0
  pub open_free : Holds (λ c. not_open c ≡ true) f.1

-- the elements of the fields, one after the other
unfoldable pub render : List (Text × Text) → Text
unfolding element
render [] = []
render ((name, value) ∷ fs) = element name value ++ render fs

-- what follows the opening bracket of an element
body : Text → Text → Text → Text
body name value t = name ++ (b'>' ∷ value ++ (b'<' ∷ b'/' ∷ name ++ b'>' ∷ t))

body-append : (name value t : Text) → body name value [] ++ t ≡ body name value t
unfolding body
body-append name value t =
    append_assoc name (b'>' ∷ value ++ (b'<' ∷ b'/' ∷ name ++ b'>' ∷ [])) t
    ∙ ap (λ s. name ++ b'>' ∷ s)
        (append_assoc value (b'<' ∷ b'/' ∷ name ++ b'>' ∷ []) t
          ∙ ap (λ s. value ++ b'<' ∷ b'/' ∷ s) (append_assoc name (b'>' ∷ []) t))

span-run :
    (p : ℕ → Bool) (s : Text) (c : ℕ) (t : Text)
    → Holds (λ x. p x ≡ true) s
    → p c ≡ false
    → span p (s ++ c ∷ t) ≡ (s, c ∷ t)
unfolding span
span-run p [] c t h k = ground (arith, k)
span-run p (x ∷ s) c t h k = ground (arith, h.0, span-run p s c t h.1 k)

element-body : (name value t : Text) → element name value ++ t ≡ b'<' ∷ body name value t
unfolding element body
element-body name value t = ap (λ s. b'<' ∷ s) (body-append name value t)

match_close-some :
    (name value tail rest : Text)
    → after (b'<' ∷ b'/' ∷ name ++ b'>' ∷ []) tail ≡ some rest
    → match_close name value tail ≡ some (name, value)
unfolding match_close
match_close-some name value tail rest e = ground (arith, e)

match_close-body :
    (name value t : Text)
    → match_close name value (b'<' ∷ b'/' ∷ name ++ b'>' ∷ t) ≡ some (name, value)
match_close-body name value t = match_close-some name value (b'<' ∷ b'/' ∷ name ++ b'>' ∷ t) t (
    ap (after (b'<' ∷ b'/' ∷ name ++ b'>' ∷ []))
      (sym (append_assoc (b'<' ∷ b'/' ∷ name) (b'>' ∷ []) t))
    ∙ after_self (b'<' ∷ b'/' ∷ name ++ b'>' ∷ []) t)

match_named-body :
    (name value t : Text)
    → 1 ≤ length name
    → Holds (λ c. not_open c ≡ true) value
    → match_named name (b'>' ∷ value ++ (b'<' ∷ b'/' ∷ name ++ b'>' ∷ t)) ≡ some (name, value)
unfolding match_named not_open
match_named-body [] value t n h = absurd (omega (arith, n))
match_named-body (c ∷ cs) value t n h =
    ap (λ q. match_close (c ∷ cs) q.0 q.1)
      (span-run not_open value b'<' (b'/' ∷ c ∷ cs ++ b'>' ∷ t) h refl)
    ∙ match_close-body (c ∷ cs) value t

match_element-body :
    (name value t : Text)
    → IsField (name, value)
    → match_element (b'<' ∷ body name value t) ≡ some (name, value)
unfolding match_element is_word body
match_element-body name value t f =
    ap (λ q. match_named q.0 q.1)
      (span-run is_word name b'>' (value ++ (b'<' ∷ b'/' ∷ name ++ b'>' ∷ t)) f.word refl)
    ∙ match_named-body name value t f.named f.open_free

elements-skip : (x t : Text) → elements (length x) (x ++ t) ≡ elements 0 t
unfolding elements
elements-skip [] t = refl
elements-skip (c ∷ x) t = elements-skip x t

elements-match :
    (c : ℕ) (s name value : Text)
    → match_element (c ∷ s) ≡ some (name, value)
    → elements 0 (c ∷ s) ≡ (name, value) ∷ elements (2 * length name + length value + 4) s
unfolding elements
elements-match c s name value e = ground (arith, e)

length-body : (name value : Text) → length (body name value []) ≡ 2 * length name + length value + 4
unfolding body
length-body name value = omega (
  arith,
  length-append name (b'>' ∷ value ++ (b'<' ∷ b'/' ∷ name ++ b'>' ∷ [])),
  length-append value (b'<' ∷ b'/' ∷ name ++ b'>' ∷ []),
  length-append name (b'>' ∷ []),
)

elements-element :
    (name value t : Text)
    → IsField (name, value)
    → elements 0 (element name value ++ t) ≡ (name, value) ∷ elements 0 t
elements-element name value t f =
    ap (elements 0) (element-body name value t)
    ∙ elements-match b'<' (body name value t) name value (match_element-body name value t f)
    ∙ ap (λ s. (name, value) ∷ s)
        (ap (λ n. elements n (body name value t)) (sym (length-body name value))
          ∙ ap (elements (length (body name value []))) (sym (body-append name value t))
          ∙ elements-skip (body name value []) t)

-- Of the elements of any fields, written one after the other, the search finds the fields, in
-- their order, each with its name and its value.
pub elements-render : (fs : List (Text × Text)) → Holds IsField fs → elements 0 (render fs) ≡ fs
unfolding render
elements-render [] h = unfold elements in refl
elements-render ((name, value) ∷ fs) h =
    elements-element name value (render fs) h.0
    ∙ ap (λ s. (name, value) ∷ s) (elements-render fs h.1)
