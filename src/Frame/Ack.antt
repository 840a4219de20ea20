-- ===== src/Frame/Ack.antt =====
-- twin/ack_parser.py: the acknowledgements of the box, over the code points of a text.
use oig_proxy.Common.{
  ℕ, Bool, false, not, ◌||◌, ◌&&◌, Option, none, some, [], ◌∷◌, leb, nat_beq, Text, codes, ◌==◌,
  text_eq, is_space, is_digit, if◌then◌else◌,
}
use oig_proxy.Common.Dict
use oig_proxy.Common.Dict.{Dict}
use oig_proxy.Values.{Value, null, bool, int, float, str, other}
use oig_proxy.Frame.Match.{after, span, search_tag}

pub data AckResult : Type 0 where
  ack end_result nack : AckResult

-- The dict that `parse_box_ack` returns: a key that is not in it is none.
pub record BoxAck : Type 0 where
  pub result : AckResult
  pub table : Option Text
  pub todo : Option Text
  pub timestamp : Option Text
  pub reason : Option Text

-- `<Result>(ACK|END|NACK)</Result>` at the start of the text
unfoldable pub match_result : Text → Option AckResult
unfolding after
match_result s = elim (after (codes "<Result>ACK</Result>") s) [
  | some r ↦ some ack
  | none ↦ elim (after (codes "<Result>END</Result>") s) [
    | some r ↦ some end_result
    | none ↦ elim (after (codes "<Result>NACK</Result>") s) [ none ↦ none | some r ↦ some nack ]
  ]
]

unfoldable pub search_result : Text → Option AckResult
unfolding match_result
search_result [] = none
search_result (c ∷ s) =
    let rest = search_result s in elim (match_result (c ∷ s)) [ none ↦ rest | some r ↦ some r ]

unfoldable pub parse_box_ack : Text → Option BoxAck
unfolding search_result search_tag
parse_box_ack s = elim (search_result s) [
  | none ↦ none
  | some r ↦ some (record {
    result = r;
    table = search_tag (codes "TblName") s;
    todo = search_tag (codes "ToDo") s;
    timestamp = search_tag (codes "DT") s;
    reason = search_tag (codes "Reason") s;
  })
]

-- What `parse_tbl_events_ack` returns.
pub record EventAck : Type 0 where
  pub table : Text
  pub key : Text
  pub value : Text

infixl 5 ◌>>=◌
abbrev ◌>>=◌ : {A B : Type 0} → Option A → (A → Option B) → Option B
none >>= f = none
some a >>= f = f a

-- `[A-Za-z0-9_]`
unfoldable pub is_name : ℕ → Bool
is_name c = (leb b'a' c && leb c b'z') || (leb b'A' c && leb c b'Z') || is_digit c || nat_beq c b'_'

-- `[^\]]`
unfoldable pub not_close : ℕ → Bool
not_close c = not (nat_beq c b']')

-- `\s*`
unfoldable pub skip_space : Text → Text
unfolding span
skip_space s = (span is_space s).1

-- `+` of a class: the run, and what follows it
unfoldable pub some_of : (ℕ → Bool) → Text → Option (Text × Text)
unfolding span
some_of p s = elim (span p s).0 [ [] ↦ none | c ∷ cs ↦ some (c ∷ cs, (span p s).1) ]

-- `_TBL_EVENT_CONTENT_RE` at the start of the text. What follows each run begins with something
-- that the run does not contain, so only the longest run can match.
unfoldable pub match_content : Text → Option EventAck
unfolding after span skip_space some_of is_name not_close
match_content s = do
  r ← after (codes "Remotely") s
  r ← after (codes ":") (skip_space r)
  (table, r) ← some_of is_name (skip_space r)
  r ← after (codes "/") (skip_space r)
  (key, r) ← some_of is_name (skip_space r)
  r ← after (codes ":") (skip_space r)
  r ← after (codes "[") (skip_space r)
  r ← after (codes "]->[") (span not_close r).1
  let (value, r) = span not_close r
  r ← after (codes "]") r
  some (record { table = table; key = key; value = value })

unfoldable pub search_content : Text → Option EventAck
unfolding match_content
search_content [] = none
search_content (c ∷ s) =
    let rest = search_content s in elim (match_content (c ∷ s)) [ none ↦ rest | some r ↦ some r ]

-- The value is that text.
unfoldable pub is_text : {F : Type 0} → Text → Option (Value F) → Bool
is_text t none = false
is_text t (some null) = false
is_text t (some (bool b)) = false
is_text t (some (int n)) = false
is_text t (some (float x)) = false
is_text t (some (str s)) = s == t
is_text t (some (other s)) = false

unfoldable pub text_content : {F : Type 0} → Option (Value F) → Option Text
text_content none = none
text_content (some null) = none
text_content (some (bool b)) = none
text_content (some (int n)) = none
text_content (some (float x)) = none
text_content (some (str s)) = some s
text_content (some (other s)) = none

unfoldable pub parse_tbl_events_ack : {F : Type 0} → Dict Text (Value F) → Option EventAck
unfolding Dict.get is_text text_content search_content
parse_tbl_events_ack parsed =
    if not (is_text (codes "tbl_events") (Dict.get (codes "_table") parsed))
    then none
    else if not (is_text (codes "Setting") (Dict.get (codes "Type") parsed))
    then none
    else elim (text_content (Dict.get (codes "Content") parsed)) [
      | none ↦ none
      | some content ↦ search_content content
    ]
