-- ===== src/Telemetry/Stored.antt =====
-- telemetry/client.py: what is done with a buffer, from a new one on.
use oig_proxy.Common.{
  ℕ, ◌⊎◌, inl, inr, ◌+◌, ◌*◌, ◌≤◌, ◌≡◌, arith, Bool, true, false, not, Option, none, some, List, [],
  ◌∷◌, ltb, ltb→lt, length, length-append, take, Text, Bool-cases,
}
use oig_proxy.Common.Keeps.{keep-if}
use oig_proxy.Telemetry.Buffer.{
  Row, Orders, TelemetryBuffer, buffer_max_messages, keep_rows, row_ids, delete_row, cleaned,
  cleanup, Fault, no_fault, insert_fails, count_fails, cleanup_fails, half_cleaned, new_row,
  new_buffer, inserted, checked, store, Loaded, get_pending, remove,
}
use oig_proxy.Telemetry.Bounded.{
  IsBuffer, HasDistinct, keep_rows-Holds, keep_rows-HasDistinct, length-keep_rows, length-take,
  append-HasDistinct, below-IsAbsent, append-below,
}

-- What is done with a buffer.
pub data BufferCall : Type 0 where
  stores : (topic payload : Text) → (now later : ℕ) → Fault → BufferCall
  reads : (limit : ℕ) → (failed_at : Option ℕ) → BufferCall
  removes : (removed : Bool) → (id : ℕ) → BufferCall

module _ (orders : Orders) where
  length-cleaned :
      (now : ℕ) (rs : List Row) → HasDistinct rs → length (cleaned orders now rs) ≤ 1000
  unfolding cleaned
  length-cleaned now rs d =
      let recent = keep_rows (λ r. not (ltb (r.timestamp + 168 * 3600000) now)) rs in
      let kept = take 1000 (orders.newest_first recent) in
      omega (
        arith,
        length-keep_rows (row_ids kept) recent (keep_rows-HasDistinct _ rs d),
        length-take 1000 (orders.newest_first recent),
      )

  inserted-IsBuffer :
      (topic payload : Text) (now : ℕ) (b : TelemetryBuffer)
      → IsBuffer b
      → IsBuffer (inserted topic payload now b)
  inserted-IsBuffer topic payload now b v = record {
    distinct = append-HasDistinct _ b.rows (below-IsAbsent b.next_id b.rows v.below) v.distinct;
    below = append-below _ (b.next_id + 1) b.rows (omega arith) v.below;
  }

  kept_rows-IsBuffer :
      (keeps : Row → Bool) (b : TelemetryBuffer)
      → IsBuffer b
      → IsBuffer (record b { rows = keep_rows keeps b.rows })
  kept_rows-IsBuffer keeps b v = record {
    distinct = keep_rows-HasDistinct keeps b.rows v.distinct;
    below = keep_rows-Holds _ keeps b.rows v.below;
  }

  half_cleaned-IsBuffer :
      (old_deleted : Bool) (now : ℕ) (b : TelemetryBuffer)
      → IsBuffer b
      → IsBuffer (half_cleaned old_deleted now b)
  unfolding half_cleaned
  half_cleaned-IsBuffer false now b v = v
  half_cleaned-IsBuffer true now b v = kept_rows-IsBuffer _ b v

  cleanup-IsBuffer : (now : ℕ) (b : TelemetryBuffer) → IsBuffer b → IsBuffer (cleanup orders now b)
  unfolding cleanup cleaned
  cleanup-IsBuffer now b v =
      keep-if (λ (x : TelemetryBuffer). IsBuffer x) (not b.is_open) v
        (kept_rows-IsBuffer _ _ (kept_rows-IsBuffer _ b v))

  store-IsBuffer :
      (topic payload : Text) (now later : ℕ) (fault : Fault) (b : TelemetryBuffer)
      → IsBuffer b
      → IsBuffer (store orders topic payload now later fault b).0
  unfolding store checked
  store-IsBuffer topic payload now later insert_fails b v = v
  store-IsBuffer topic payload now later count_fails b v =
      keep-if (λ (x : TelemetryBuffer). IsBuffer x) b.is_open
        (inserted-IsBuffer topic payload now b v) v
  store-IsBuffer topic payload now later (cleanup_fails old_deleted) b v =
      let w = inserted-IsBuffer topic payload now b v in
      keep-if (λ (x : TelemetryBuffer × Bool). IsBuffer x.0) (not b.is_open) v
        (keep-if (λ (x : TelemetryBuffer). IsBuffer x) _
          (half_cleaned-IsBuffer old_deleted later (inserted topic payload now b) w) w)
  store-IsBuffer topic payload now later no_fault b v =
      keep-if (λ (x : TelemetryBuffer × Bool). IsBuffer x.0) (not b.is_open) v
        (keep-if (λ (x : TelemetryBuffer). IsBuffer x) _
          (cleanup-IsBuffer later (inserted topic payload now b)
            (inserted-IsBuffer topic payload now b v))
          (inserted-IsBuffer topic payload now b v))

  bounded :
      (b : TelemetryBuffer) (topic payload : Text) (now later : ℕ)
      → b.is_open ≡ true
      → HasDistinct (inserted topic payload now b).rows
      → (length (store orders topic payload now later no_fault b).0.rows ≤ 1000)
        × ((1000 ≤ length b.rows)
            ⊎ ((store orders topic payload now later no_fault b).0 ≡ inserted topic payload now b))
  unfolding store checked cleanup
  bounded b topic payload now later o d =
      elim (Bool-cases (ltb buffer_max_messages (length (inserted topic payload now b).rows))) [
        | inl e ↦ (
          rw (o, e) (length-cleaned later (inserted topic payload now b).rows d),
          inl (
              omega (arith, ltb→lt _ _ e, length-append b.rows (new_row topic payload now b ∷ []))),
        )
        | inr e ↦ (rw (o, e) (ground (arith, e)), inr (rw (o, e)))
      ]

  module _ {P : Type 0} (loads : Text → Loaded P) where
    abbrev pub done : BufferCall → TelemetryBuffer → TelemetryBuffer
    done (stores topic payload now later fault) b = (store orders topic payload now later fault b).0
    done (reads limit failed_at) b = (get_pending orders loads limit failed_at b).0
    done (removes removed id) b = remove removed id b

    abbrev pub done_all : List BufferCall → TelemetryBuffer → TelemetryBuffer
    done_all [] b = b
    done_all (x ∷ xs) b = done_all xs (done x b)

    done-IsBuffer : (x : BufferCall) (b : TelemetryBuffer) → IsBuffer b → IsBuffer (done x b)
    unfolding get_pending remove delete_row
    done-IsBuffer (stores topic payload now later fault) b v =
        store-IsBuffer topic payload now later fault b v
    done-IsBuffer (reads limit none) b v =
        keep-if (λ (x : TelemetryBuffer × List (ℕ × Text × P)). IsBuffer x.0) (not b.is_open) v
          (kept_rows-IsBuffer _ b v)
    done-IsBuffer (reads limit (some n)) b v =
        keep-if (λ (x : TelemetryBuffer × List (ℕ × Text × P)). IsBuffer x.0) (not b.is_open) v
          (kept_rows-IsBuffer _ b v)
    done-IsBuffer (removes removed id) b v =
        keep-if (λ (x : TelemetryBuffer). IsBuffer x) (not b.is_open) v
          (keep-if (λ (x : TelemetryBuffer). IsBuffer x) removed (kept_rows-IsBuffer _ b v) v)

    done_all-IsBuffer :
        (xs : List BufferCall) (b : TelemetryBuffer) → IsBuffer b → IsBuffer (done_all xs b)
    done_all-IsBuffer [] b v = v
    done_all-IsBuffer (x ∷ xs) b v = done_all-IsBuffer xs (done x b) (done-IsBuffer x b v)

    -- Whatever the database reads first, and whatever was done with a new buffer and failed
    -- before: a message that is stored without a fault in an open buffer leaves at most 1000
    -- messages there; either 1000 or more had waited, or exactly these and the message are there.
    pub store_bounded :
        (xs : List BufferCall) (topic payload : Text) (now later : ℕ)
        → (done_all xs new_buffer).is_open ≡ true
        → (length (store orders topic payload now later no_fault (done_all xs new_buffer)).0.rows
            ≤ 1000)
          × ((1000 ≤ length (done_all xs new_buffer).rows)
              ⊎ ((store orders topic payload now later no_fault (done_all xs new_buffer)).0
                  ≡ inserted topic payload now (done_all xs new_buffer)))
    store_bounded xs topic payload now later o =
        bounded (done_all xs new_buffer) topic payload now later o
          (inserted-IsBuffer topic payload now _
            (done_all-IsBuffer xs new_buffer (record { distinct = tt; below = tt }))).distinct
