-- ===== src/App.antt =====
-- main.py and device_id.py: the callbacks of `ProxyApp`, which join the server, the processor of
-- the frames, the client of MQTT and the collector. The publication of the proxy's own status is
-- only counted.
pub mod Own
pub mod Control
use oig_proxy.Common.{
  ℕ, ◌+◌, Bool, true, false, not, ◌&&◌, ◌||◌, Option, none, some, List, [], ◌∷◌, ◌++◌, map, nat_beq,
  Text, codes, ◌==◌, text_eq, strip, lower, if◌then◌else◌,
}
use oig_proxy.Common.Dict
use oig_proxy.Common.Dict.{Dict}
use oig_proxy.Common.Decimal.{ℤ, pos, negsuc}
use oig_proxy.Values.{Floats, Value, null, bool, int, float, str, other, normalize_value_for_text}
use oig_proxy.Mode.{ModeManager, online_text, hybrid_text, offline_text, apply_configured_mode}
use oig_proxy.Queue
use oig_proxy.Queue.{TwinQueue, TwinSetting}
use oig_proxy.Server.Frames.{is_in, text_or_empty}
use oig_proxy.Mqtt.{Answer}
use oig_proxy.Sensors.Fields.{Python, isnew_tables}
use oig_proxy.Sensors.Processor.{FrameProcessor, Both, process}

-- `ProxyStatusPublisher`, what `record_frame` writes, and the calls of `_publish`.
pub record Status : Type 0 where
  pub frame_count : ℕ
  pub last_frame_table : Text
  pub last_frame_device_id : Text
  pub last_frame_timestamp : ℕ
  pub publications : ℕ

unfoldable pub record_frame : (now : ℕ) → (device_id table : Text) → Status → Status
record_frame now device_id table s = record s {
  frame_count = s.frame_count + 1;
  last_frame_table = table;
  last_frame_device_id = device_id;
  last_frame_timestamp = now;
}

-- `_device_id` of the manager, the collaborators, and the calls of the collector.
pub record ProxyApp (F C : Type 0) : Type 0 where
  pub device_id : Option Text
  pub status_publisher : Option Status
  pub both : Both F C
  pub has_collector : Bool
  pub collector_device_id : Text
  pub tbl_events : List (Dict Text (Value F))

-- `DeviceIdManager.save`; the file may not be written.
unfoldable pub save : {F C : Type 0} → (written : Bool) → Text → ProxyApp F C → ProxyApp F C
save written device_id a = if written then record a { device_id = some device_id } else a

-- `DeviceIdManager.validate`
unfoldable pub validate : {F C : Type 0} → Text → ProxyApp F C → Bool
validate device_id a = elim a.device_id [ none ↦ false | some d ↦ d == device_id ]

module _ {F C : Type 0} where
  unfoldable pub record_status : (now : ℕ) → (device_id table : Text) → ProxyApp F C → ProxyApp F C
  unfolding record_frame
  record_status now device_id table a = elim a.status_publisher [
    | none ↦ a
    | some s ↦ record a { status_publisher = some (record_frame now device_id table s) }
  ]

  publish_status : ProxyApp F C → ProxyApp F C
  publish_status a = elim a.status_publisher [
    | none ↦ a
    | some s ↦ record a { status_publisher = some (record s { publications = s.publications + 1 }) }
  ]

  -- the first device that is seen
  unfoldable pub learn :
      (written : Bool) → (now : ℕ) → (device_id table : Text) → ProxyApp F C → ProxyApp F C
  unfolding save record_status publish_status
  learn written now device_id table a =
      let a1 = publish_status (record_status now device_id table (save written device_id a)) in
      if a1.has_collector then record a1 { collector_device_id = device_id } else a1

-- The id and the table of a frame; those that the parser gives are texts.
abbrev pub device_of : (fl : Floats) → Dict Text (Value fl.Float) → Text
device_of fl fields = text_or_empty fl (Dict.get (codes "_device_id") fields)

abbrev pub table_of : (fl : Floats) → Dict Text (Value fl.Float) → Text
table_of fl fields = text_or_empty fl (Dict.get (codes "_table") fields)

module _ (fl : Floats) (py : Python fl.Float) {C : Type 0} (answers : ℕ → Answer) where
  open fl use {Float}

  -- the frame goes through the processor, and an event to the collector
  unfoldable pub publish_frame :
      (device_id table : Text) → Dict Text (Value Float) → ProxyApp Float C → ProxyApp Float C
  publish_frame device_id table fields a =
      let a1 = record a { both = process fl py answers device_id table fields a.both } in
      if table == codes "tbl_events" && a1.has_collector
      then record a1 { tbl_events = fields ∷ a1.tbl_events }
      else a1

  -- a frame of a table and a device
  unfoldable pub accept_frame :
      (written : Bool)
      → (now : ℕ) → (device_id table : Text) → Dict Text (Value Float)
      → ProxyApp Float C
      → ProxyApp Float C
  accept_frame written now device_id table fields a = elim a.device_id [
    | none ↦ publish_frame device_id table fields (learn written now device_id table a)
    | some d ↦
        if not (d == device_id)
        then a
        else publish_frame device_id table fields (record_status now device_id table a)
  ]

  -- a poll is a frame of the actual values
  unfoldable pub accept_table :
      (written : Bool)
      → (now : ℕ) → (device_id table : Text) → Dict Text (Value Float)
      → ProxyApp Float C
      → ProxyApp Float C
  unfolding is_in Dict.put
  accept_table written now device_id table fields a =
      if is_in isnew_tables table
      then accept_frame written now device_id (codes "tbl_actual")
          (Dict.put (codes "_table") (str (codes "tbl_actual")) fields) a
      else accept_frame written now device_id table fields a

  -- `_on_frame`
  unfoldable pub on_frame :
      (written : Bool) → (now : ℕ) → Dict Text (Value Float) → ProxyApp Float C → ProxyApp Float C
  on_frame written now fields a =
      if device_of fl fields == [] || table_of fl fields == []
      then a
      else accept_table written now (device_of fl fields) (table_of fl fields) fields a

  -- frames, each with what the file of the id and the clock say
  unfoldable pub on_frames :
      List (Bool × ℕ × Dict Text (Value Float)) → ProxyApp Float C → ProxyApp Float C
  on_frames [] a = a
  on_frames ((written, now, fields) ∷ frames) a = on_frames frames (on_frame written now fields a)

-- `int(...)` and `float(...)` of texts, where none stands for the error.
module _ (fl : Floats) (int_of : Text → Option ℤ) where
  open fl use {Float, to_int, parse}

  coerce_text : (raw normalized : Text) → Value Float
  coerce_text raw [] = str raw
  coerce_text raw (c ∷ s) = elim (int_of (c ∷ s)) [
    | some n ↦ int n
    | none ↦ elim (parse (c ∷ s)) [ some x ↦ float x | none ↦ str raw ]
  ]

  unfoldable pub coerce_confirmed_value : Value Float → Value Float
  unfolding coerce_text strip
  coerce_confirmed_value (str s) = coerce_text s (strip s)
  coerce_confirmed_value null = null
  coerce_confirmed_value (bool b) = bool b
  coerce_confirmed_value (int n) = int n
  coerce_confirmed_value (float x) = float x
  coerce_confirmed_value (other s) = other s

  -- `mode_map`
  mode_at : ℤ → Option Text
  mode_at (pos n) =
      if nat_beq n 0
      then some online_text
      else if nat_beq n 1
      then some hybrid_text
      else if nat_beq n 2
      then some offline_text
      else none
  mode_at (negsuc n) = none

  mode_of_int : Option ℤ → Option Text
  mode_of_int none = none
  mode_of_int (some n) = mode_at n

  -- The name of the mode that a value asks for; none stands for the rejection.
  unfoldable pub mode_name : Value Float → Option Text
  unfolding mode_at mode_of_int strip lower
  mode_name (str s) =
      let normalized = lower (strip s) in
      if normalized == online_text || normalized == hybrid_text || normalized == offline_text
      then some normalized
      else mode_of_int (int_of normalized)
  mode_name (int n) = mode_at n
  mode_name (bool b) = mode_at (if b then pos 1 else pos 0)
  mode_name (float x) = mode_at (to_int x)
  mode_name null = none
  mode_name (other s) = none

  -- `_apply_proxy_mode`, with the status that is published where the mode is taken
  unfoldable pub apply_proxy_mode :
      {C : Type 0} → Text → ModeManager × ProxyApp Float C → ModeManager × ProxyApp Float C
  unfolding publish_status
  apply_proxy_mode name (m, a) =
      let (m1, applied) = apply_configured_mode name m in
      if applied then (m1, publish_status a) else (m, a)

  -- `_handle_proxy_control` on a running loop, and the task that it schedules
  unfoldable pub handle_proxy_control :
      {C : Type 0}
      → (table key : Text) → Value Float
      → ModeManager × ProxyApp Float C
      → (ModeManager × ProxyApp Float C) × Bool
  handle_proxy_control table key value s =
      if not (table == codes "proxy_control")
      then (s, false)
      else if not (key == codes "PROXY_MODE")
      then (s, false)
      else (elim (mode_name value) [ none ↦ s | some name ↦ apply_proxy_mode name s ], true)

  -- `_consume_twin_commands`
  str_of : Value Float → Text
  str_of null = codes "None"
  str_of v = normalize_value_for_text fl v

  abbrev command_of : TwinSetting Float → Text × Text
  command_of s = (s.table ++ (codes ":" ++ s.key), str_of s.value)

  unfoldable pub consume_twin_commands : TwinQueue Float → List (Text × Text)
  unfolding str_of
  consume_twin_commands q = map (λ s. command_of s) (Queue.get_pending q)

  -- `_on_confirmed_setting`
  unfoldable pub on_confirmed_setting :
      (py : Python Float) {C : Type 0} (answers : ℕ → Answer) (device_id table key : Text)
      → Value Float
      → ProxyApp Float C
      → ProxyApp Float C
  on_confirmed_setting py answers device_id table key value a = record a {
    both = process fl py answers device_id table ((key, coerce_confirmed_value value) ∷ []) a.both;
  }
