-- ===== src/Telemetry/Counted.antt =====
-- The counters of the window count every response once, under one kind.
use oig_proxy.Common.{
  ℕ, ◌+◌, ◌≡◌, ◌∙◌, refl, ap, arith, true, Option, none, some, List, [], ◌∷◌, Text, codes, ◌==◌,
  text_eq, pair_eq, Holds,
}
use oig_proxy.Common.Dict
use oig_proxy.Common.Dict.{Dict, values}
use oig_proxy.Audit.Records.{contains}
use oig_proxy.Common.Keeps.{keep-if}
use oig_proxy.Telemetry.{
  Tally, zero_tally, ResponseKind, resp_weather, resp_end, resp_nack, resp_ack_getall,
  resp_ack_getactual, resp_ack, resp_other, StatsKey, TelemetryCollector, count_response, tally_of,
  count_under, record_request, record_nack_reason, record_response, record_timeout, flush_stats,
  take_request, safe_mode_value, response_kind,
}

-- What is reported to the collector.
pub data Report : Type 0 where
  request : Option Text → (conn_id : ℕ) → Report
  response : (mode : Option Text) (response_text source : Text) (conn_id : ℕ) → Report
  timeout : (mode : Option Text) (conn_id : ℕ) → Report
  flush : Report

abbrev pub report : Report → TelemetryCollector → TelemetryCollector
report (request table conn_id) c = record_request table conn_id c
report (response mode text source conn_id) c = record_response mode text source conn_id c
report (timeout mode conn_id) c = record_timeout mode conn_id c
report flush c = (flush_stats c).0

-- the collector after the reports, the last one first
abbrev pub after_reports : TelemetryCollector → List Report → TelemetryCollector
after_reports c [] = c
after_reports c (x ∷ xs) = report x (after_reports c xs)

-- how many responses and timeouts were reported since the last flush
abbrev pub responses : List Report → ℕ
responses [] = 0
responses (request table conn_id ∷ xs) = responses xs
responses (response mode text source conn_id ∷ xs) = responses xs + 1
responses (timeout mode conn_id ∷ xs) = responses xs + 1
responses (flush ∷ xs) = 0

-- all requests of the counters
abbrev pub total : Dict StatsKey Tally → ℕ
total [] = 0
total ((k, t) ∷ d) = t.req_count + total d

-- The kinds add up to the count of the requests.
abbrev pub IsBalanced : Tally → Type 0
IsBalanced t =
    t.req_count
    ≡ t.resp_ack + t.resp_end + t.resp_weather + t.resp_nack + t.resp_ack_getall
      + t.resp_ack_getactual + t.resp_other

count_response-IsBalanced :
    (k : ResponseKind) (t : Tally)
    → IsBalanced t
    → IsBalanced (count_response k t) × ((count_response k t).req_count ≡ t.req_count + 1)
unfolding count_response
count_response-IsBalanced resp_weather t h = (omega (arith, h), refl)
count_response-IsBalanced resp_end t h = (omega (arith, h), refl)
count_response-IsBalanced resp_nack t h = (omega (arith, h), refl)
count_response-IsBalanced resp_ack_getall t h = (omega (arith, h), refl)
count_response-IsBalanced resp_ack_getactual t h = (omega (arith, h), refl)
count_response-IsBalanced resp_ack t h = (omega (arith, h), refl)
count_response-IsBalanced resp_other t h = (omega (arith, h), refl)

-- The counters are balanced and have counted that many responses.
abbrev pub Counts : ℕ → Dict StatsKey Tally → Type 0
Counts n d = Holds IsBalanced (values d) × (total d ≡ n)

count_under-Counts :
    (key : StatsKey) (kind : ResponseKind) (d : Dict StatsKey Tally)
    → Holds IsBalanced (values d)
    → Counts (total d + 1) (count_under key kind d)
unfolding count_under tally_of zero_tally Dict.get Dict.put
count_under-Counts key kind [] h =
    ground (arith, count_response-IsBalanced kind (tally_of none) (omega arith))
count_under-Counts key kind ((j, t) ∷ d) h =
    ground (arith, count_response-IsBalanced kind t h.0, count_under-Counts key kind d h.1, h)

abbrev HasCounted : ℕ → TelemetryCollector → Type 0
HasCounted n c = Counts n c.stats

record_request-HasCounted :
    (n : ℕ) (table : Option Text) (conn_id : ℕ) (c : TelemetryCollector)
    → HasCounted n c
    → HasCounted n (record_request table conn_id c)
unfolding record_request
record_request-HasCounted n none conn_id c h = h
record_request-HasCounted n (some []) conn_id c h = h
record_request-HasCounted n (some (x ∷ xs)) conn_id c h = h

record_response-HasCounted :
    (n : ℕ) (mode : Option Text) (text source : Text) (conn_id : ℕ) (c : TelemetryCollector)
    → HasCounted n c
    → HasCounted (n + 1) (record_response mode text source conn_id c)
unfolding record_response record_nack_reason
record_response-HasCounted n mode text source conn_id c h =
    let (table, pending) = take_request conn_id c.req_pending in
    let key : StatsKey = (table, (source, safe_mode_value mode)) in
    let (balanced, sum) = count_under-Counts key (response_kind text) c.stats h.0 in
    let counted : Counts (n + 1) (count_under key (response_kind text) c.stats) =
      (balanced, sum ∙ ap (λ k. k + 1) h.1) in
    let noted =
      keep-if (λ (x : TelemetryCollector). HasCounted (n + 1) x)
        (contains (codes "<Result>NACK</Result>") text) counted counted in
    keep-if (λ (x : TelemetryCollector). HasCounted (n + 1) x) (source == codes "cloud") noted noted

-- From a collector with no counters, after any reports: for every table, source and mode the kinds
-- of the responses add up to the count of the requests, and all these counts add up to the number
-- of responses and timeouts since the counters were last flushed.
pub after_reports-Counts :
    (c : TelemetryCollector) (xs : List Report)
    → c.stats ≡ []
    → Counts (responses xs) (after_reports c xs).stats
unfolding record_timeout flush_stats
after_reports-Counts c [] e = rw e (tt, refl)
after_reports-Counts c (request table conn_id ∷ xs) e =
    record_request-HasCounted (responses xs) table conn_id (after_reports c xs)
      (after_reports-Counts c xs e)
after_reports-Counts c (response mode text source conn_id ∷ xs) e =
    record_response-HasCounted (responses xs) mode text source conn_id (after_reports c xs)
      (after_reports-Counts c xs e)
after_reports-Counts c (timeout mode conn_id ∷ xs) e =
    record_response-HasCounted (responses xs) mode [] (codes "timeout") conn_id
      (record (after_reports c xs) { cloud_failed_in_window = true }) (after_reports-Counts c xs e)
after_reports-Counts c (flush ∷ xs) e = (tt, refl)
