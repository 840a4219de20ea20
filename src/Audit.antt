-- ===== src/Audit.antt =====
-- telemetry/settings_audit.py: the records of a setting's life, and the limits on their raw text.
-- Clock readings (`time.time()`) are in microseconds. A timestamp is kept as the reading that
-- `_utc_iso` formats.
pub mod Steps
pub mod Limits
pub mod Records
pub mod Bounded
pub mod Overshoot
pub mod Redaction
