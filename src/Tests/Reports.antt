-- ===== src/Tests/Reports.antt =====
-- Concrete reports to the collector.
use oig_proxy.Common.{refl, false, none, some, List, [], ◌∷◌, codes}
use oig_proxy.Telemetry.{TelemetryCollector}
use oig_proxy.Telemetry.Counted.{
  Report, request, response, timeout, flush, after_reports, responses, Counts, after_reports-Counts,
}

abbrev new_collector : TelemetryCollector
new_collector = record {
  req_pending = [];
  stats = [];
  nack_reasons = [];
  cloud_ok_in_window = false;
  cloud_failed_in_window = false;
  cloud_eof_short_in_window = false;
  box_seen_in_window = false;
  warning_burst_windows_remaining = 0;
  setting_burst_current_active = false;
  setting_burst_next_windows_remaining = 0;
  logs = [];
  dropped_log_epochs = [];
  log_window = 300;
  log_max = 5000;
}

abbrev some_reports : List Report
some_reports =
    response (some (codes "online")) (codes "<Result>ACK</Result>") (codes "cloud") 1
    ∷ timeout none 2
    ∷ request (some (codes "tbl_actual")) 1
    ∷ flush
    ∷ response none (codes "<Result>END</Result>") (codes "cloud") 1
    ∷ []

after_reports-Counts_example :
    Counts (responses some_reports) (after_reports new_collector some_reports).stats
after_reports-Counts_example = after_reports-Counts new_collector some_reports refl
