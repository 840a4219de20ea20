-- ===== src/Telemetry.antt =====
-- telemetry/collector.py: `TelemetryCollector`, the part that matches responses with requests and
-- counts them, its windows, and its buffer of log entries.
pub mod Counted
pub mod Buffer
pub mod Bounded
pub mod Stored
pub mod Payloads
pub mod Client
pub mod Paced
pub mod Flush
pub mod Windows
use oig_proxy.Common.{
  ℕ, ◌+◌, ◌-◌, Bool, true, false, not, ◌&&◌, ◌||◌, Option, none, some, List, [], ◌∷◌, ◌++◌, ltb,
  length, Text, codes, ◌==◌, text_eq, nat_eq, pair_eq, strip, lower, if◌then◌else◌,
}
use oig_proxy.Common.Dict
use oig_proxy.Common.Dict.{Dict}
use oig_proxy.Audit.Records.{contains}
use oig_proxy.Frame.Match.{span, not_open, after}

-- The counter of one table, source and mode.
pub record Tally : Type 0 where
  pub req_count : ℕ
  pub resp_ack : ℕ
  pub resp_end : ℕ
  pub resp_weather : ℕ
  pub resp_nack : ℕ
  pub resp_ack_getall : ℕ
  pub resp_ack_getactual : ℕ
  pub resp_other : ℕ

unfoldable pub zero_tally : Tally
zero_tally = record {
  req_count = 0;
  resp_ack = 0;
  resp_end = 0;
  resp_weather = 0;
  resp_nack = 0;
  resp_ack_getall = 0;
  resp_ack_getactual = 0;
  resp_other = 0;
}

pub data ResponseKind : Type 0 where
  resp_weather resp_end resp_nack resp_ack_getall resp_ack_getactual resp_ack resp_other :
      ResponseKind

-- the table, the source of the response and the mode
abbrev pub StatsKey : Type 0
StatsKey = Text × (Text × Text)

-- An entry of the log, with its time.
pub record LogEntry : Type 0 where
  pub epoch : ℕ
  pub message : Text

pub record TelemetryCollector : Type 0 where
  pub req_pending : Dict ℕ (List Text)
  pub stats : Dict StatsKey Tally
  pub nack_reasons : Dict Text ℕ
  pub cloud_ok_in_window : Bool
  pub cloud_failed_in_window : Bool
  pub cloud_eof_short_in_window : Bool
  pub box_seen_in_window : Bool
  pub warning_burst_windows_remaining : ℕ
  pub setting_burst_current_active : Bool
  pub setting_burst_next_windows_remaining : ℕ
  pub logs : List LogEntry
  pub dropped_log_epochs : List ℕ
  pub log_window : ℕ
  pub log_max : ℕ

unfoldable pub response_kind : Text → ResponseKind
unfolding contains
response_kind s =
    if contains (codes "<Result>Weather</Result>") s
    then resp_weather
    else if contains (codes "<Result>END</Result>") s
    then resp_end
    else if contains (codes "<Result>NACK</Result>") s
    then resp_nack
    else if contains (codes "<Result>ACK</Result>") s && contains (codes "<ToDo>GetAll</ToDo>") s
    then resp_ack_getall
    else if contains (codes "<Result>ACK</Result>") s && contains (codes "<ToDo>GetActual</ToDo>") s
    then resp_ack_getactual
    else if contains (codes "<Result>ACK</Result>") s
    then resp_ack
    else resp_other

-- `stats_counter["req_count"] += 1`, and the kind of the response
unfoldable pub count_response : ResponseKind → Tally → Tally
count_response resp_weather t = record t {
  req_count = t.req_count + 1;
  resp_weather = t.resp_weather + 1;
}
count_response resp_end t = record t { req_count = t.req_count + 1; resp_end = t.resp_end + 1 }
count_response resp_nack t = record t { req_count = t.req_count + 1; resp_nack = t.resp_nack + 1 }
count_response resp_ack_getall t = record t {
  req_count = t.req_count + 1;
  resp_ack_getall = t.resp_ack_getall + 1;
}
count_response resp_ack_getactual t = record t {
  req_count = t.req_count + 1;
  resp_ack_getactual = t.resp_ack_getactual + 1;
}
count_response resp_ack t = record t { req_count = t.req_count + 1; resp_ack = t.resp_ack + 1 }
count_response resp_other t = record t {
  req_count = t.req_count + 1;
  resp_other = t.resp_other + 1;
}

-- `get_mode()` as a text, if the getter is set and gives one
unfoldable pub safe_mode_value : Option Text → Text
unfolding strip lower
safe_mode_value none = codes "offline"
safe_mode_value (some m) =
    let mode = lower (strip m) in
    if mode == codes "online" || mode == codes "hybrid" || mode == codes "offline"
    then mode
    else codes "offline"

-- the entries of a list without the first ones over a number
unfoldable pub drop_first : List Text → List Text
drop_first [] = []
drop_first (t ∷ ts) = ts

-- what `defaultdict(deque)` has under a key
unfoldable pub queue_of : Option (List Text) → List Text
queue_of none = []
queue_of (some q) = q

unfoldable pub record_request :
    Option Text → (conn_id : ℕ) → TelemetryCollector → TelemetryCollector
unfolding queue_of drop_first Dict.get Dict.put
record_request none conn_id c = c
record_request (some []) conn_id c = c
record_request (some (x ∷ xs)) conn_id c =
    let queue = queue_of (Dict.get conn_id c.req_pending) ++ (x ∷ xs) ∷ [] in
    record c {
      req_pending =
          Dict.put conn_id (if ltb 1000 (length queue) then drop_first queue else queue)
            c.req_pending;
    }

-- The table that a response answers, and the requests that are then pending.
unfoldable pub take_request : ℕ → Dict ℕ (List Text) → Text × Dict ℕ (List Text)
unfolding Dict.get Dict.put Dict.erase
take_request conn_id pending = elim (Dict.get conn_id pending) [
  | none ↦ (codes "unmatched", pending)
  | some queue ↦ elim queue [
    | [] ↦ (codes "unmatched", Dict.erase conn_id pending)
    | t ∷ ts ↦ elim ts [
      | [] ↦ (t, Dict.erase conn_id pending)
      | u ∷ us ↦ (t, Dict.put conn_id (u ∷ us) pending)
    ]
  ]
]

-- `re.search(r"<Reason>([^<]*)</Reason>")`: the group
unfoldable pub search_reason : Text → Option Text
unfolding span not_open after
search_reason [] = none
search_reason (c ∷ s) =
    let rest = search_reason s in
    elim (after (codes "<Reason>") (c ∷ s)) [
      | none ↦ rest
      | some r ↦ elim (after (codes "</Reason>") (span not_open r).1) [
        | none ↦ rest
        | some r' ↦ some (span not_open r).0
      ]
    ]

unfoldable pub extract_nack_reason : Text → Text
unfolding search_reason strip
extract_nack_reason s = elim (search_reason s) [ none ↦ codes "unknown" | some g ↦ strip g ]

unfoldable pub record_nack_reason : Text → TelemetryCollector → TelemetryCollector
unfolding Dict.get Dict.put
record_nack_reason reason c =
    let n : ℕ = elim (Dict.get reason c.nack_reasons) [ none ↦ 0 | some k ↦ k ] in
    record c { nack_reasons = Dict.put reason (n + 1) c.nack_reasons }

unfoldable pub tally_of : Option Tally → Tally
unfolding zero_tally
tally_of none = zero_tally
tally_of (some t) = t

-- A response is counted under its key.
unfoldable pub count_under : StatsKey → ResponseKind → Dict StatsKey Tally → Dict StatsKey Tally
unfolding tally_of count_response Dict.get Dict.put
count_under key kind stats =
    Dict.put key (count_response kind (tally_of (Dict.get key stats))) stats

unfoldable pub record_response :
    (mode : Option Text) (response_text source : Text) (conn_id : ℕ)
    → TelemetryCollector
    → TelemetryCollector
unfolding take_request safe_mode_value count_under response_kind record_nack_reason
    extract_nack_reason contains
record_response mode text source conn_id c =
    let (table, pending) = take_request conn_id c.req_pending in
    let counted = record c {
      req_pending = pending;
      stats = count_under (table, (source, safe_mode_value mode)) (response_kind text) c.stats;
    } in
    let noted =
      if contains (codes "<Result>NACK</Result>") text
      then record_nack_reason (extract_nack_reason text) counted
      else counted in
    if source == codes "cloud" then record noted { cloud_ok_in_window = true } else noted

unfoldable pub record_timeout : Option Text → ℕ → TelemetryCollector → TelemetryCollector
unfolding record_response
record_timeout mode conn_id c =
    record_response mode [] (codes "timeout") conn_id (record c { cloud_failed_in_window = true })

-- `_flush_stats`: the counters of the window, which are cleared
unfoldable pub flush_stats : TelemetryCollector → TelemetryCollector × Dict StatsKey Tally
flush_stats c = (record c { stats = [] }, c.stats)
