-- ===== src/Frame/Parse.antt =====
-- protocol/parser.py: `parse_xml_frame`, over the code points of a frame's text. A name is a run of
-- ASCII letters, digits and underscores, a number a run of ASCII digits; `int` of a text is a
-- parameter.
use oig_proxy.Common.{
  ℕ, zero, suc, ◌+◌, ◌-◌, ◌*◌, Bool, false, ◌||◌, ◌&&◌, Option, none, some, List, [], ◌∷◌, ◌++◌,
  leb, ltb, nat_beq, length, any, Text, codes, ◌==◌, text_eq, is_digit, if◌then◌else◌,
}
use oig_proxy.Common.Dict
use oig_proxy.Common.Dict.{Dict}
use oig_proxy.Common.Decimal.{ℤ}
use oig_proxy.Values.{Floats, Value, int, float, str}
use oig_proxy.Frame.Match.{after, span, not_open, search_tag, search_digits}

-- `\w`
unfoldable pub is_word : ℕ → Bool
is_word c = (leb b'a' c && leb c b'z') || (leb b'A' c && leb c b'Z') || is_digit c || nat_beq c b'_'

-- `_SKIP_FIELDS`
abbrev pub skip_fields : List Text
skip_fields =
    codes "TblName"
    ∷ codes "ID_Device"
    ∷ codes "ID_Set"
    ∷ codes "Reason"
    ∷ codes "ver"
    ∷ codes "CRC"
    ∷ codes "DT"
    ∷ codes "ID_SubD"
    ∷ []

-- The end of an element with that name and value.
unfoldable pub match_close : Text → Text → Text → Option (Text × Text)
unfolding after
match_close name value tail = elim (after (b'<' ∷ b'/' ∷ name ++ b'>' ∷ []) tail) [
  | none ↦ none
  | some rest ↦ some (name, value)
]

-- What follows the name.
unfoldable pub match_named : Text → Text → Option (Text × Text)
unfolding after span not_open match_close
match_named [] r = none
match_named (c ∷ cs) r = elim (after (b'>' ∷ []) r) [
  | none ↦ none
  | some r' ↦ match_close (c ∷ cs) (span not_open r').0 (span not_open r').1
]

-- `<(\w+)>([^<]*)</\1>` at the start of the text: the two groups. Neither run can be followed by
-- what must follow it but when it is the longest.
unfoldable pub match_element : Text → Option (Text × Text)
unfolding after span is_word match_named
match_element s = elim (after (b'<' ∷ []) s) [
  | none ↦ none
  | some r ↦ match_named (span is_word r).0 (span is_word r).1
]

-- `re.finditer`: the groups of all matches; the number counts what of a match is still to be
-- passed over.
unfoldable pub elements : ℕ → Text → List (Text × Text)
unfolding match_element
elements k [] = []
elements (suc k) (c ∷ s) = elements k s
elements zero (c ∷ s) = elim (match_element (c ∷ s)) [
  | none ↦ elements 0 s
  | some (name, value) ↦ (name, value) ∷ elements (2 * length name + length value + 4) s
]

-- `int` of a run of digits
unfoldable pub digits_value : ℕ → Text → ℕ
digits_value n [] = n
digits_value n (c ∷ s) = digits_value (10 * n + (c - 48)) s

module _ (fl : Floats) (read_int : Text → Option ℤ) where
  open fl use {Float, parse}

  -- the number that a value is, if it is one, or its text
  unfoldable pub convert : Text → Value Float
  convert value =
      if any (λ c. nat_beq c b'.') value
      then elim (parse value) [ none ↦ str value | some x ↦ float x ]
      else elim (read_int value) [ none ↦ str value | some n ↦ int n ]

  unfoldable pub put_elements :
      List (Text × Text) → Dict Text (Value Float) → Dict Text (Value Float)
  unfolding convert Dict.put
  put_elements [] d = d
  put_elements ((name, value) ∷ es) d =
      if any (λ f. f == name) skip_fields
      then put_elements es d
      else put_elements es (Dict.put name (convert value) d)

  -- a special key, if the search has found its value
  unfoldable pub put_found : Text → Option Text → Dict Text (Value Float) → Dict Text (Value Float)
  unfolding Dict.put
  put_found key none d = d
  put_found key (some g) d = Dict.put key (str g) d

  -- the number of the battery bank is greater than 0
  unfoldable pub is_inactive_bank : Text → Bool
  unfolding search_digits digits_value
  is_inactive_bank s = elim (search_digits (codes "ID_SubD") s) [
    | none ↦ false
    | some g ↦ ltb 0 (digits_value 0 g)
  ]

  unfoldable pub parse_xml_frame : Text → Dict Text (Value Float)
  unfolding search_tag search_digits put_found is_inactive_bank elements put_elements
  parse_xml_frame s =
      let special = put_found (codes "_dt") (search_tag (codes "DT") s) (
        put_found (codes "_device_id") (search_digits (codes "ID_Device") s)
          (put_found (codes "_table") (search_tag (codes "TblName") s) [])) in
      if is_inactive_bank s then [] else put_elements (elements 0 s) special
