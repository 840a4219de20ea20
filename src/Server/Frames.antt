-- ===== src/Server/Frames.antt =====
-- proxy/server.py: what the server reads out of the text of a frame.
use oig_proxy.Common.{
  Bool, true, not, ◌&&◌, ◌||◌, Option, none, some, List, [], ◌∷◌, ◌++◌, any, all, nat_beq, Text,
  codes, ◌==◌, text_eq, if◌then◌else◌,
}
use oig_proxy.Common.Dict
use oig_proxy.Common.Dict.{Dict}
use oig_proxy.Common.Decimal.{ℤ, pos, show_int}
use oig_proxy.Values.{Floats, Value, null, bool, int, float, str, other}
use oig_proxy.Frame.Match.{find}
use oig_proxy.Frame.Extract.{infer_table_name}

-- `int` of what stands between the first opening marker and the first closing one behind it
unfoldable pub extract_between :
    (read_int : Text → Option ℤ) (open_marker close_marker : Text) → Text → Option ℤ
unfolding find
extract_between read_int open_marker close_marker s = elim (find open_marker s) [
  | none ↦ none
  | some (before, rest) ↦ elim (find close_marker rest) [
    | none ↦ none
    | some (inner, behind) ↦ read_int inner
  ]
]

unfoldable pub extract_id_set : (Text → Option ℤ) → Text → Option ℤ
unfolding extract_between
extract_id_set read_int = extract_between read_int (codes "<ID_Set>") (codes "</ID_Set>")

unfoldable pub extract_msg_id : (Text → Option ℤ) → Text → Option ℤ
unfolding extract_between
extract_msg_id read_int = extract_between read_int (codes "<ID>") (codes "</ID>")

abbrev pub transport_result_values : List Text
transport_result_values = codes "ACK" ∷ codes "END" ∷ []

abbrev pub poll_result_values : List Text
poll_result_values = codes "IsNewSet" ∷ codes "IsNewWeather" ∷ codes "IsNewFW" ∷ []

abbrev pub transport_metadata_keys : List Text
transport_metadata_keys =
    codes "Confirm"
    ∷ codes "ID"
    ∷ codes "ID_Server"
    ∷ codes "NewValue"
    ∷ codes "Rdt"
    ∷ codes "Result"
    ∷ codes "TSec"
    ∷ codes "TblItem"
    ∷ codes "Tmr"
    ∷ codes "ToDo"
    ∷ codes "mytimediff"
    ∷ []

-- the keys in the set that forms the second condition of `_is_transport_frame`
abbrev pub setting_metadata_keys : List Text
setting_metadata_keys =
    codes "Confirm" ∷ codes "ID" ∷ codes "ID_Server" ∷ codes "TSec" ∷ codes "mytimediff" ∷ []

unfoldable pub is_in : List Text → Text → Bool
is_in ts t = any (λ u. u == t) ts

-- `not key.startswith("_")`
unfoldable pub is_public : Text → Bool
is_public [] = true
is_public (c ∷ s) = not (nat_beq c b'_')

unfoldable pub keys : {F : Type 0} → Dict Text (Value F) → List Text
keys [] = []
keys ((k, v) ∷ d) = if is_public k then k ∷ keys d else keys d

module _ (fl : Floats) where
  open fl use {Float, below, above, show}

  -- `str(value or "")`. Floats that a frame gives are no NaN; other objects it does not give.
  unfoldable pub text_or_empty : Option (Value Float) → Text
  text_or_empty none = []
  text_or_empty (some null) = []
  text_or_empty (some (bool b)) = if b then codes "True" else []
  text_or_empty (some (int (pos n))) = if nat_beq n 0 then [] else show_int (pos n)
  text_or_empty (some (int n)) = show_int n
  text_or_empty (some (float x)) = if below x (pos 0) || above x (pos 0) then show x else []
  text_or_empty (some (str s)) = s
  text_or_empty (some (other s)) = s

  unfoldable pub effective_table_name : Dict Text (Value Float) → Text → Text
  unfolding text_or_empty is_in Dict.get infer_table_name
  effective_table_name parsed payload =
      let result = text_or_empty (Dict.get (codes "Result") parsed) in
      let table = text_or_empty (Dict.get (codes "_table") parsed) in
      if is_in (poll_result_values ++ transport_result_values) result
      then result
      else if not (table == [])
      then table
      else elim (infer_table_name payload) [ none ↦ [] | some name ↦ name ]

  unfoldable pub is_transport_frame : Dict Text (Value Float) → Bool
  unfolding text_or_empty is_in keys Dict.get
  is_transport_frame parsed =
      let result = text_or_empty (Dict.get (codes "Result") parsed) in
      let present = keys parsed in
      if is_in transport_result_values result
      then true
      else if is_in poll_result_values result
      then all (is_in transport_metadata_keys) present
      else is_in present (codes "TblItem")
        && is_in present (codes "NewValue")
        && any (is_in present) setting_metadata_keys
