-- ===== src/Telemetry/Windows.antt =====
-- telemetry/collector.py: the windows of the collector and its buffer of log entries.
use oig_proxy.Common.{
  ℕ, ◌+◌, ◌-◌, ◌++◌, Bool, true, false, not, ◌||◌, List, [], ◌∷◌, ltb, length, if◌then◌else◌,
}
use oig_proxy.Telemetry.{LogEntry, TelemetryCollector}

-- `while self.logs and self.logs[0]["_epoch"] < cutoff`, with the cutoff's window on the other side
unfoldable pub drop_old_logs : (now window : ℕ) → List LogEntry → List LogEntry
drop_old_logs now window [] = []
drop_old_logs now window (e ∷ es) =
    let rest = drop_old_logs now window es in if ltb (e.epoch + window) now then rest else e ∷ es

unfoldable pub drop_old_epochs : (now window : ℕ) → List ℕ → List ℕ
drop_old_epochs now window [] = []
drop_old_epochs now window (e ∷ es) =
    let rest = drop_old_epochs now window es in if ltb (e + window) now then rest else e ∷ es

-- `while len(self.logs) > self.log_max`: what stays, and the times of what is dropped
unfoldable pub drop_excess : (log_max : ℕ) → List LogEntry → List LogEntry × List ℕ
drop_excess log_max [] = ([], [])
drop_excess log_max (e ∷ es) =
    let (kept, dropped) = drop_excess log_max es in
    if ltb log_max (length (e ∷ es)) then (kept, e.epoch ∷ dropped) else (e ∷ es, [])

unfoldable pub prune_log_buffer : ℕ → TelemetryCollector → TelemetryCollector
unfolding drop_old_logs drop_old_epochs drop_excess
prune_log_buffer now c =
    let (kept, dropped) = drop_excess c.log_max (drop_old_logs now c.log_window c.logs) in
    record c {
      logs = kept;
      dropped_log_epochs = drop_old_epochs now c.log_window c.dropped_log_epochs ++ dropped;
    }

-- A record of the logger, with whether it is a warning or worse.
unfoldable pub record_log_entry :
    (now : ℕ) (warns : Bool) → LogEntry → TelemetryCollector → TelemetryCollector
unfolding prune_log_buffer
record_log_entry now warns e c =
    let c' =
      if warns
      then record c { warning_burst_windows_remaining = c.warning_burst_windows_remaining + 2 }
      else c in
    prune_log_buffer now (record c' { logs = c'.logs ++ e ∷ [] })

unfoldable pub advance_log_window_state : TelemetryCollector → TelemetryCollector
advance_log_window_state c = record c {
  warning_burst_windows_remaining = c.warning_burst_windows_remaining - 1;
  setting_burst_next_windows_remaining = c.setting_burst_next_windows_remaining - 1;
  setting_burst_current_active = ltb 0 c.setting_burst_next_windows_remaining;
}

unfoldable pub should_include_logs : (burst_active box_connected_window : Bool) → Bool
should_include_logs burst_active box_connected_window = burst_active || not box_connected_window

-- `connected` is what the getter says, or false without one
unfoldable pub get_box_connected_window_status :
    (connected : Bool) → TelemetryCollector → TelemetryCollector × Bool
get_box_connected_window_status connected c =
    (record c { box_seen_in_window = false }, connected || c.box_seen_in_window)

unfoldable pub get_cloud_online_window_status :
    (session_connected : Bool) → TelemetryCollector → TelemetryCollector × Bool
get_cloud_online_window_status session_connected c = (
  record c {
    cloud_ok_in_window = false;
    cloud_failed_in_window = false;
    cloud_eof_short_in_window = false;
  },
  if c.cloud_ok_in_window
      then true
      else if c.cloud_failed_in_window || c.cloud_eof_short_in_window
      then false
      else session_connected,
)
