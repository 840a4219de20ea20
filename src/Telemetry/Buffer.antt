-- ===== src/Telemetry/Buffer.antt =====
-- telemetry/client.py: `TelemetryBuffer`, the messages that wait for the broker. SQLite is a
-- parameter by the orders in which it reads the rows, and by what fails. Times are milliseconds.
use oig_proxy.Common.{
  ℕ, ◌+◌, ◌*◌, Bool, true, false, not, Option, none, some, List, [], ◌∷◌, ◌++◌, map, any, ltb,
  nat_beq, length, take, Text, if◌then◌else◌,
}

pub record Row : Type 0 where
  pub id : ℕ
  pub topic : Text
  pub payload : Text
  pub timestamp : ℕ

-- `ORDER BY timestamp ASC` and `DESC`
pub record Orders : Type 0 where
  pub oldest_first : List Row → List Row
  pub newest_first : List Row → List Row

-- What `json.loads` makes of a payload.
pub data Loaded (P : Type 0) : Type 0 where
  malformed not_object : Loaded P
  object : P → Loaded P

-- A connection that is not open is `None`; `next_id` is the counter of AUTOINCREMENT.
pub record TelemetryBuffer : Type 0 where
  pub is_open : Bool
  pub rows : List Row
  pub next_id : ℕ

abbrev pub buffer_max_messages : ℕ
buffer_max_messages = 1000

abbrev pub buffer_max_age_hours : ℕ
buffer_max_age_hours = 168

abbrev pub new_buffer : TelemetryBuffer
new_buffer = record { is_open = true; rows = []; next_id = 1 }

unfoldable pub keep_rows : (Row → Bool) → List Row → List Row
keep_rows p [] = []
keep_rows p (r ∷ rs) = let rest = keep_rows p rs in if p r then r ∷ rest else rest

abbrev pub has_id : List ℕ → Row → Bool
has_id ids r = any (λ i. nat_beq i r.id) ids

abbrev pub row_ids : List Row → List ℕ
row_ids rs = map (λ r. r.id) rs

-- `DELETE FROM messages WHERE id = ?`
unfoldable pub delete_row : ℕ → List Row → List Row
unfolding keep_rows
delete_row id rs = keep_rows (λ r. not (nat_beq r.id id)) rs

-- The statements that may fail in `store`; those of the cleanup after or before the deletion of the
-- old messages.
pub data Fault : Type 0 where
  no_fault insert_fails count_fails : Fault
  cleanup_fails : (old_deleted : Bool) → Fault

abbrev pub new_row : (topic payload : Text) → (now : ℕ) → TelemetryBuffer → Row
new_row topic payload now b = record {
  id = b.next_id;
  topic = topic;
  payload = payload;
  timestamp = now;
}

abbrev pub inserted : (topic payload : Text) → (now : ℕ) → TelemetryBuffer → TelemetryBuffer
inserted topic payload now b = record b {
  rows = b.rows ++ new_row topic payload now b ∷ [];
  next_id = b.next_id + 1;
}

-- the messages that are not older than the cutoff
abbrev pub recent_rows : (now : ℕ) → List Row → List Row
recent_rows now rs =
    keep_rows (λ r. not (ltb (r.timestamp + buffer_max_age_hours * 3600000) now)) rs

-- An error in the cleanup is not told: the deletion of the old messages may be done.
unfoldable pub half_cleaned : (old_deleted : Bool) → (now : ℕ) → TelemetryBuffer → TelemetryBuffer
half_cleaned false now b = b
half_cleaned true now b = record b { rows = recent_rows now b.rows }

module _ (orders : Orders) where
  open orders use {oldest_first, newest_first}

  -- of which the newest are kept
  unfoldable pub cleaned : (now : ℕ) → List Row → List Row
  cleaned now rs =
      let recent = recent_rows now rs in
      keep_rows (has_id (row_ids (take buffer_max_messages (newest_first recent)))) recent

  -- `_cleanup`
  unfoldable pub cleanup : (now : ℕ) → TelemetryBuffer → TelemetryBuffer
  cleanup now b = if not b.is_open then b else record b { rows = cleaned now b.rows }

  -- what follows the insertion
  unfoldable pub checked : (now : ℕ) → TelemetryBuffer → TelemetryBuffer
  checked now b = if ltb buffer_max_messages (length b.rows) then cleanup now b else b

  -- with the readings of the clock for the row and for the cleanup
  unfoldable pub store :
      (topic payload : Text) → (now later : ℕ) → Fault → TelemetryBuffer → TelemetryBuffer × Bool
  store topic payload now later insert_fails b = (b, false)
  store topic payload now later count_fails b =
      (if b.is_open then inserted topic payload now b else b, false)
  store topic payload now later (cleanup_fails old_deleted) b =
      let c = inserted topic payload now b in
      if not b.is_open then (b, false) else (
        if ltb buffer_max_messages (length c.rows) then half_cleaned old_deleted later c else c,
        true,
      )
  store topic payload now later no_fault b =
      if not b.is_open then (b, false) else (checked later (inserted topic payload now b), true)

  module _ {P : Type 0} (loads : Text → Loaded P) where
    -- The rows whose payloads are objects, and the ids of those that are no JSON.
    unfoldable pub read_rows : List Row → List (ℕ × Text × P) × List ℕ
    read_rows [] = ([], [])
    read_rows (r ∷ rs) =
        let (messages, bad) = read_rows rs in
        elim (loads r.payload) [
          | malformed ↦ (messages, r.id ∷ bad)
          | not_object ↦ (messages, bad)
          | object p ↦ ((r.id, r.topic, p) ∷ messages, bad)
        ]

    -- If a statement fails, nothing is returned; the rows read before, given by their number,
    -- have been looked at.
    unfoldable pub get_pending :
        (limit : ℕ)
        → (failed_at : Option ℕ) → TelemetryBuffer
        → TelemetryBuffer × List (ℕ × Text × P)
    get_pending limit none b =
        if not b.is_open
        then (b, [])
        else let (messages, bad) = read_rows (take limit (oldest_first b.rows)) in
          (record b { rows = keep_rows (λ r. not (has_id bad r)) b.rows }, messages)
    get_pending limit (some n) b =
        if not b.is_open
        then (b, [])
        else let (messages, bad) = read_rows (take n (take limit (oldest_first b.rows))) in
          (record b { rows = keep_rows (λ r. not (has_id bad r)) b.rows }, [])

-- `remove`, `count` and `close`, with whether the statement succeeds: an error is not told.
unfoldable pub remove : (removed : Bool) → (id : ℕ) → TelemetryBuffer → TelemetryBuffer
remove removed id b =
    if not b.is_open then b else if removed then record b { rows = delete_row id b.rows } else b

unfoldable pub count : (counted : Bool) → TelemetryBuffer → ℕ
count counted b = if not b.is_open then 0 else if counted then length b.rows else 0

unfoldable pub close : (closed : Bool) → TelemetryBuffer → TelemetryBuffer
close closed b = if closed then record b { is_open = false } else b
