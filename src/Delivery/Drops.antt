-- ===== src/Delivery/Drops.antt =====
-- What becomes of a setting that is never confirmed.
use oig_proxy.Common.{
  ℕ, ◌+◌, ◌≤◌, ◌≡◌, ◌⊎◌, inl, inr, refl, sym, ◌∙◌, ap, Bool, true, false, Option, none, some, List,
  [], ◌∷◌, arith, Text, text_eq, pair_eq,
}
use oig_proxy.Common.Dict
use oig_proxy.Common.Dict.{Dict, beq_refl}
use oig_proxy.Values.{Floats}
use oig_proxy.Audit.Steps.{timeout}
use oig_proxy.Audit.Records.{Draw}
use oig_proxy.Queue
use oig_proxy.Queue.{TwinSetting}
use oig_proxy.Queue.Laws.{get-acknowledge}
use oig_proxy.Delivery.State.{SessionInflight, Delivery}
use oig_proxy.Delivery.Exclusive.{record_queued-SameWork, expire_session-SameFlight}
use oig_proxy.Delivery.Selects.{first, IsInFlight, select-IsInFlight}
use oig_proxy.Delivery.Local.{
  clear_global_inflight, queue_acknowledge, expire_inflight, expire_session, deliver_first,
  deliver_next, deliver_pending, session_text,
}

-- What the session has in flight, if anything, has waited for as long as the timeout.
abbrev pub Ready : {F : Type 0} → ℕ → Option Text → Delivery F → Type 0
Ready now none d = Unit
Ready now (some session) d =
    (Dict.get session d.session_inflight ≡ none)
    ⊎ ((i : SessionInflight) × (Dict.get session d.session_inflight ≡ some i)
        × (i.since + d.inflight_timeout ≤ now))

module _ (fl : Floats) (supply : ℕ → Draw) where
  open fl use {Float}

  -- What a call has handed over is in flight, and nothing is if there was nothing to hand over.
  abbrev pub IsHandedOver :
      ℕ → Text → Option Text → Option (TwinSetting Float) → Delivery Float → Type 0
  IsHandedOver now device session none d = d.inflight_key ≡ none
  IsHandedOver now device session (some s) d = IsInFlight fl supply now device session s d

  expire_inflight-drops :
      (now : ℕ) (session : Text) (d : Delivery Float) (k : Text × Text) (since : ℕ)
      → d.inflight_key ≡ some k
      → d.inflight_since ≡ some since
      → since + d.inflight_timeout ≤ now
      → let d' = expire_inflight fl supply now session d in
        (d'.twin_queue ≡ (Queue.acknowledge k.0 k.1 d.twin_queue).0)
        × (d'.inflight_key ≡ none)
        × (d'.session_inflight ≡ d.session_inflight)
        × (d'.inflight_timeout ≡ d.inflight_timeout)
  unfolding expire_inflight queue_acknowledge clear_global_inflight
  expire_inflight-drops now session d k since ek es le =
      ground (arith, ek, es, record_queued-SameWork fl supply timeout k.0 k.1 session d)

  Ready-same :
      (now : ℕ) (session : Option Text) (d e : Delivery Float)
      → d.session_inflight ≡ e.session_inflight
      → d.inflight_timeout ≡ e.inflight_timeout
      → Ready now session e
      → Ready now session d
  Ready-same now none d e p q h = tt
  Ready-same now (some id) d e p q h = rw (p, q) h

  expire_session-Ready :
      (now : ℕ) (session : Option Text) (d : Delivery Float)
      → Ready now session d
      → (expire_session fl supply now session d).1 ≡ false
  unfolding expire_session
  expire_session-Ready now none d h = refl
  expire_session-Ready now (some id) d (inl e) = ground (arith, e)
  expire_session-Ready now (some id) d (inr (i, e, le)) = ground (arith, e, le)

  deliver_first-IsHandedOver :
      (now : ℕ) (device : Text) (session : Option Text) (l : List (TwinSetting Float))
      (d : Delivery Float)
      → d.inflight_key ≡ none
      → let (d', delivered) = deliver_first fl supply now device session l d in
        (delivered ≡ first l)
        × (d'.twin_queue ≡ d.twin_queue)
        × IsHandedOver now device session delivered d'
  unfolding deliver_first
  deliver_first-IsHandedOver now device session [] d e = (refl, refl, e)
  deliver_first-IsHandedOver now device session (s ∷ ss) d e =
      let (flight, same) = select-IsInFlight fl supply now device session s d in
      (refl, same, flight)

  deliver_next-IsHandedOver :
      (now : ℕ) (device : Text) (session : Option Text) (waits : Bool) (k : Option (Text × Text))
      (d : Delivery Float)
      → waits ≡ false
      → k ≡ none
      → d.inflight_key ≡ none
      → let (d', delivered) = deliver_next fl supply now device session waits k d in
        (delivered ≡ first (Queue.get_pending d.twin_queue))
        × (d'.twin_queue ≡ d.twin_queue)
        × IsHandedOver now device session delivered d'
  unfolding deliver_next
  deliver_next-IsHandedOver now device session true k d w e idle = absurd (ground arith)
  deliver_next-IsHandedOver now device session false (some k) d w e idle = absurd (ground arith)
  deliver_next-IsHandedOver now device session false none d w e idle =
      deliver_first-IsHandedOver now device session (Queue.get_pending d.twin_queue) d idle

  -- When the time of the setting in flight has run out, and the session has nothing in flight or
  -- has had it for as long as the timeout: the queue that a call leaves is the one before without
  -- that setting, its first pending setting is the one delivered, and this one, if there is one, is
  -- in flight afterwards, else none.
  pub deliver_pending-drops :
      (t t' t'' : ℕ) (device : Text) (session : Option Text) (d : Delivery Float) (k : Text × Text)
      (since : ℕ)
      → d.inflight_key ≡ some k
      → d.inflight_since ≡ some since
      → since + d.inflight_timeout ≤ t
      → Ready t' session d
      → let (d', delivered) = deliver_pending fl supply t t' t'' device session d in
        (delivered ≡ first (Queue.get_pending d'.twin_queue))
        × (d'.twin_queue ≡ (Queue.acknowledge k.0 k.1 d.twin_queue).0)
        × (Queue.get k.0 k.1 d'.twin_queue ≡ none)
        × IsHandedOver t'' device session delivered d'
  unfolding deliver_pending
  deliver_pending-drops t t' t'' device session d k since ek es le f =
      let d' = expire_inflight fl supply t (session_text session) d in
      let (same, idle, sessions, timeouts) =
        expire_inflight-drops t (session_text session) d k since ek es le in
      let (d'', waits) = expire_session fl supply t' session d' in
      let kept = expire_session-SameFlight fl supply t' session d' in
      let free =
        expire_session-Ready t' session d' (Ready-same t' session d' d sessions timeouts f) in
      let none_left = kept.inflight_key ∙ idle in
      let (delivers, queue, handed) =
        deliver_next-IsHandedOver t'' device session waits d''.inflight_key d'' free none_left
          none_left in
      let left = queue ∙ kept.twin_queue ∙ same in
      (
        delivers ∙ ap (λ q. first (Queue.get_pending q)) (sym queue),
        left,
        rw left ((get-acknowledge k.0 k.1 k.0 k.1 d.twin_queue).0 ∙ (rw (beq_refl k) refl)),
        handed,
      )
