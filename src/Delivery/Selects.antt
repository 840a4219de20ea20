-- ===== src/Delivery/Selects.antt =====
-- Which setting is delivered.
use oig_proxy.Common.{
  ℕ, ◌≤◌, ◌≡◌, inl, inr, refl, subst, sym, ◌∙◌, Bool, true, false, Option, none, some, List, [],
  ◌∷◌, arith, Text, text_eq, pair_eq, Holds, Option-cases,
}
use oig_proxy.Common.Dict
use oig_proxy.Common.Dict.{Dict, values, get-put, get-erase, beq_refl}
use oig_proxy.Values.{Floats}
use oig_proxy.Audit.Steps.{timeout, deliver_selected}
use oig_proxy.Audit.Records.{Draw}
use oig_proxy.Queue
use oig_proxy.Queue.{TwinSetting, TwinQueue}
use oig_proxy.Queue.Laws.{Filed, acknowledge-Filed}
use oig_proxy.Queue.Order.{get_pending-front}
use oig_proxy.Delivery.State.{SessionInflight, Delivery}
use oig_proxy.Delivery.Keeps.{record_plain-SameWork}
use oig_proxy.Delivery.Exclusive.{record_queued-SameWork, expire_session-SameFlight}
use oig_proxy.Delivery.Local.{
  clear_global_inflight, queue_acknowledge, expire_inflight, expire_session, mark_inflight, select,
  deliver_first, deliver_next, deliver_pending, session_text,
}

abbrev pub first : {A : Type 0} → List A → Option A
first [] = none
first (x ∷ xs) = some x

-- The session has no setting of its own in flight.
abbrev pub Free : {F : Type 0} → Option Text → Delivery F → Type 0
Free none d = Unit
Free (some session) d = Dict.get session d.session_inflight ≡ none

-- The session, if there is one, has that entry.
abbrev pub AtSession : Option Text → SessionInflight → Dict Text SessionInflight → Type 0
AtSession none i d = Unit
AtSession (some session) i d = Dict.get session d ≡ some i

module _ (fl : Floats) (supply : ℕ → Draw) where
  open fl use {Float}

  -- The setting is the one in flight, for the device and the session, since the reading.
  pub record IsInFlight (now : ℕ) (device : Text) (session : Option Text) (s : TwinSetting Float)
      (d : Delivery Float) : Type 0 where
    pub key : d.inflight_key ≡ some (s.table, s.key)
    pub device_id : d.inflight_device_id ≡ some device
    pub since : d.inflight_since ≡ some now
    pub at_session :
        AtSession session (record { table = s.table; key = s.key; since = now }) d.session_inflight

  mark-IsInFlight :
      (now : ℕ) (device : Text) (session : Option Text) (s : TwinSetting Float) (d : Delivery Float)
      → IsInFlight now device session s (mark_inflight fl supply now device session s d)
  unfolding mark_inflight
  mark-IsInFlight now device none s d = ground arith
  mark-IsInFlight now device (some id) s d =
      let i : SessionInflight = record { table = s.table; key = s.key; since = now } in
      ground (arith, get-put id id i d.session_inflight, beq_refl id)

  pub select-IsInFlight :
      (now : ℕ) (device : Text) (session : Option Text) (s : TwinSetting Float) (d : Delivery Float)
      → IsInFlight now device session s (select fl supply now device session s d)
        × ((select fl supply now device session s d).twin_queue ≡ d.twin_queue)
  unfolding select
  select-IsInFlight now device session s d =
      let d' = mark_inflight fl supply now device session s d in
      let same =
        record_plain-SameWork fl supply deliver_selected s device (session_text session) d' in
      let was = mark-IsInFlight now device session s d in
      (
        record {
          key = same.inflight_key ∙ was.key;
          device_id = same.inflight_device_id ∙ was.device_id;
          since = same.inflight_since ∙ was.since;
          at_session = rw same.session_inflight was.at_session;
        },
        same.twin_queue ∙ (unfold mark_inflight in refl),
      )

  deliver_first-some :
      (now : ℕ) (device : Text) (session : Option Text) (d : Delivery Float)
      (l : List (TwinSetting Float)) (s : TwinSetting Float)
      → Queue.get_pending d.twin_queue ≡ l
      → Filed d.twin_queue.queue
      → (deliver_first fl supply now device session l d).1 ≡ some s
      → let d' = (deliver_first fl supply now device session l d).0 in
        IsInFlight now device session s d'
        × (Queue.get s.table s.key d'.twin_queue ≡ some s)
        × Holds (λ x. s.enqueued_at ≤ x.enqueued_at) (values d'.twin_queue.queue)
  unfolding deliver_first
  deliver_first-some now device session d [] s e f h = absurd (ground arith)
  deliver_first-some now device session d (x ∷ xs) s e f h =
      let is : x ≡ s = ground (arith, h) in
      let d' = select fl supply now device session x d in
      let (flight, same) = select-IsInFlight now device session x d in
      let front = get_pending-front d.twin_queue x xs f e in
      subst
        (λ y.
          IsInFlight now device session y d'
          × (Queue.get y.table y.key d'.twin_queue ≡ some y)
          × Holds (λ z. y.enqueued_at ≤ z.enqueued_at) (values d'.twin_queue.queue))
        is
        (
          flight,
          subst (λ q. Queue.get x.table x.key q ≡ some x) (sym same) front.0,
          subst (λ q. Holds (λ z. x.enqueued_at ≤ z.enqueued_at) (values q.queue)) (sym same)
              front.1,
        )

  expire_inflight-Filed :
      (now : ℕ) (session : Text) (d : Delivery Float)
      → Filed d.twin_queue.queue
      → Filed (expire_inflight fl supply now session d).twin_queue.queue
  unfolding expire_inflight queue_acknowledge clear_global_inflight
  expire_inflight-Filed now session d f = elim (Option-cases d.inflight_key) [
    | inl e ↦ ground (arith, e)
    | inr (k, e) ↦ ground (
      arith,
      e,
      record_queued-SameWork fl supply timeout k.0 k.1 session d,
      acknowledge-Filed k.0 k.1 d.twin_queue f,
    )
  ]

  deliver_next-some :
      (now : ℕ) (device : Text) (session : Option Text) (waits : Bool) (k : Option (Text × Text))
      (d : Delivery Float) (s : TwinSetting Float)
      → Filed d.twin_queue.queue
      → (deliver_next fl supply now device session waits k d).1 ≡ some s
      → let d' = (deliver_next fl supply now device session waits k d).0 in
        IsInFlight now device session s d'
        × (Queue.get s.table s.key d'.twin_queue ≡ some s)
        × Holds (λ x. s.enqueued_at ≤ x.enqueued_at) (values d'.twin_queue.queue)
  unfolding deliver_next
  deliver_next-some now device session true k d s f h = absurd (ground arith)
  deliver_next-some now device session false (some k) d s f h = absurd (ground arith)
  deliver_next-some now device session false none d s f h =
      deliver_first-some now device session d (Queue.get_pending d.twin_queue) s refl f h

  -- The setting that `deliver_pending` returns, if it returns one, is in flight afterwards for the
  -- device and the session, is the one that the queue holds under its table and key, and no
  -- setting of the queue was enqueued before it.
  pub deliver_pending-selects :
      (t t' t'' : ℕ) (device : Text) (session : Option Text) (d : Delivery Float)
      (s : TwinSetting Float)
      → Filed d.twin_queue.queue
      → (deliver_pending fl supply t t' t'' device session d).1 ≡ some s
      → let d' = (deliver_pending fl supply t t' t'' device session d).0 in
        IsInFlight t'' device session s d'
        × (Queue.get s.table s.key d'.twin_queue ≡ some s)
        × Holds (λ x. s.enqueued_at ≤ x.enqueued_at) (values d'.twin_queue.queue)
  unfolding deliver_pending
  deliver_pending-selects t t' t'' device session d s f h =
      let d' = expire_inflight fl supply t (session_text session) d in
      let (d'', waits) = expire_session fl supply t' session d' in
      let g = expire_inflight-Filed t (session_text session) d f in
      let same = (expire_session-SameFlight fl supply t' session d').twin_queue in
      deliver_next-some t'' device session waits d''.inflight_key d'' s
        (subst (λ q. Filed q.queue) (sym same) g) h

  deliver_first-front :
      (now : ℕ) (device : Text) (session : Option Text) (l : List (TwinSetting Float))
      (d : Delivery Float)
      → (deliver_first fl supply now device session l d).1 ≡ first l
  unfolding deliver_first
  deliver_first-front now device session [] d = refl
  deliver_first-front now device session (s ∷ ss) d = refl

  expire_inflight-idle :
      (now : ℕ) (session : Text) (d : Delivery Float)
      → d.inflight_key ≡ none
      → expire_inflight fl supply now session d ≡ d
  unfolding expire_inflight
  expire_inflight-idle now session d e = ground (arith, e)

  expire_session-Free :
      (now : ℕ) (session : Option Text) (d : Delivery Float)
      → Free session d
      → expire_session fl supply now session d ≡ (d, false)
  unfolding expire_session
  expire_session-Free now none d f = refl
  expire_session-Free now (some id) d f = ground (arith, f)

  deliver_next-front :
      (now : ℕ) (device : Text) (session : Option Text) (k : Option (Text × Text))
      (d : Delivery Float)
      → k ≡ none
      → (deliver_next fl supply now device session false k d).1
        ≡ first (Queue.get_pending d.twin_queue)
  unfolding deliver_next
  deliver_next-front now device session none d e =
      deliver_first-front now device session (Queue.get_pending d.twin_queue) d
  deliver_next-front now device session (some k) d e = absurd (ground arith)

  -- With nothing in flight and the session free, the pending setting that was enqueued first is
  -- delivered, if there is any.
  pub deliver_pending-first :
      (t t' t'' : ℕ) (device : Text) (session : Option Text) (d : Delivery Float)
      → d.inflight_key ≡ none
      → Free session d
      → (deliver_pending fl supply t t' t'' device session d).1
        ≡ first (Queue.get_pending d.twin_queue)
  unfolding deliver_pending
  deliver_pending-first t t' t'' device session d e f =
      rw (expire_inflight-idle t (session_text session) d e, expire_session-Free t' session d f)
        (deliver_next-front t'' device session d.inflight_key d e)
