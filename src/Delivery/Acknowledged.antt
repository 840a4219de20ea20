-- ===== src/Delivery/Acknowledged.antt =====
-- What an acknowledgement leaves behind.
use oig_proxy.Common.{
  ℕ, ◌≡◌, ◌⊎◌, ◌∙◌, refl, sym, ap, Bool, false, Bool-cases, text_beq_iff, inl, inr, true, Option,
  none, some, arith, Text, ◌==◌, text_eq, pair_eq, Option-cases, if◌then◌else◌,
}
use oig_proxy.Common.Dict
use oig_proxy.Common.Dict.{get-erase, beq_refl}
use oig_proxy.Queue
use oig_proxy.Queue.{TwinSetting}
use oig_proxy.Queue.Laws.{get-acknowledge}
use oig_proxy.Values.{Floats}
use oig_proxy.Audit.Records.{Draw}
use oig_proxy.Delivery.State.{CloudPending, SessionInflight, Delivery}
use oig_proxy.Delivery.Selects.{first, Free, deliver_pending-first}
use oig_proxy.Delivery.Cloud.{cloud_pending_key, iter_cloud_pending, remove_cloud_pending}
use oig_proxy.Delivery.Local.{
  clear_global_inflight, drop_session, deliver_pending, acknowledge, acknowledge_session,
  acknowledge_cloud, first_cloud, is_inflight_key, queue_acknowledge,
}

-- That session, if there is one.
abbrev pub is_session : Option Text → Text → Bool
is_session none other = false
is_session (some session) other = session == other

module _ {F : Type 0} where
  -- The queue and the setting in flight are the same.
  pub record SameQueue (d e : Delivery F) : Type 0 where
    pub twin_queue : d.twin_queue ≡ e.twin_queue
    pub inflight_key : d.inflight_key ≡ e.inflight_key

  session-SameQueue :
      (table key : Text) (session : Option Text) (d : Delivery F)
      → SameQueue (acknowledge_session table key session d) d
  unfolding acknowledge_session
  session-SameQueue table key none d = ground arith
  session-SameQueue table key (some session) d = ground arith

  pub remove-SameQueue :
      (p : CloudPending F) (d : Delivery F) → SameQueue (remove_cloud_pending p d) d
  unfolding remove_cloud_pending
  remove-SameQueue p d = elim (Option-cases (Dict.get (cloud_pending_key p) d.cloud_pending)) [
    | inl e ↦ ground (arith, e)
    | inr (ps, e) ↦ ground (arith, e)
  ]

  cloud-SameQueue :
      (table key : Text) (d : Delivery F) → SameQueue (acknowledge_cloud table key d).0 d
  unfolding acknowledge_cloud
  cloud-SameQueue table key d = elim (Option-cases (first_cloud table key (iter_cloud_pending d))) [
    | inl e ↦ ground (arith, e)
    | inr (p, e) ↦ ground (arith, e, remove-SameQueue p d)
  ]

  -- The session has nothing in flight but the setting of that table and key.
  abbrev pub Own : Text → Text → Option Text → Delivery F → Type 0
  Own table key none d = Unit
  Own table key (some session) d =
      (Dict.get session d.session_inflight ≡ none)
      ⊎ ((i : SessionInflight) × (Dict.get session d.session_inflight ≡ some i)
          × (i.table ≡ table)
          × (i.key ≡ key))

  Free-again :
      (session : Option Text) (d e : Delivery F)
      → d.session_inflight ≡ e.session_inflight
      → Free session d
      → Free session e
  Free-again none d e p h = tt
  Free-again (some id) d e p h = sym (ap (λ s. Dict.get id s) p) ∙ h

  acknowledge_session-Free :
      (table key : Text) (session : Option Text) (d : Delivery F)
      → Own table key session d
      → Free session (acknowledge_session table key session d)
  unfolding acknowledge_session drop_session
  acknowledge_session-Free table key none d o = tt
  acknowledge_session-Free table key (some id) d (inl e) = ground (arith, e)
  acknowledge_session-Free table key (some id) d (inr (i, e, p, q)) = ground (
    arith,
    e,
    p,
    q,
    beq_refl table,
    beq_refl key,
    beq_refl id,
    get-erase id id d.session_inflight,
  )

  -- The other sessions have in flight what they had, and the settings of the cloud are the same.
  acknowledge_session-others :
      (table key : Text) (session : Option Text) (other : Text) (d : Delivery F)
      → Own table key session d
      → Dict.get other (acknowledge_session table key session d).session_inflight
        ≡ (if is_session session other then none else Dict.get other d.session_inflight)
  unfolding acknowledge_session drop_session
  acknowledge_session-others table key none other d o = refl
  acknowledge_session-others table key (some id) other d (inl e) = elim (Bool-cases (id == other)) [
    | inl b ↦ let same = (text_beq_iff id other).0 b in ground (arith, e, b, same)
    | inr b ↦ ground (arith, e, b)
  ]
  acknowledge_session-others table key (some id) other d (inr (i, e, p, q)) =
      ground (arith, e, p, q, beq_refl table, beq_refl key, get-erase id other d.session_inflight)

  acknowledge_session-cloud :
      (table key : Text) (session : Option Text) (d : Delivery F)
      → (acknowledge_session table key session d).cloud_pending ≡ d.cloud_pending
  unfolding acknowledge_session drop_session
  acknowledge_session-cloud table key none d = refl
  acknowledge_session-cloud table key (some id) d = ground arith

  inflight_known :
      (table key : Text) (d : Delivery F)
      → d.inflight_key ≡ some (table, key)
      → is_inflight_key table key d ≡ true
  unfolding is_inflight_key
  inflight_known table key d e = ground (arith, e, beq_refl table, beq_refl key)

  -- The setting in flight is acknowledged.
  acknowledge-inflight :
      (table key : Text) (session : Option Text) (d : Delivery F)
      → d.inflight_key ≡ some (table, key)
      → Own table key session d
      → let d' = (acknowledge table key session d).0 in
        (d'.twin_queue ≡ (Queue.acknowledge table key d.twin_queue).0)
        × (d'.inflight_key ≡ none)
        × (d'.session_inflight ≡ (acknowledge_session table key session d).session_inflight)
        × (d'.cloud_pending ≡ d.cloud_pending)
        × Free session d'
  unfolding acknowledge queue_acknowledge clear_global_inflight
  acknowledge-inflight table key session d e o =
      let d' = acknowledge_session table key session d in
      let same = session-SameQueue table key session d in
      let flies = inflight_known table key d' (same.inflight_key ∙ e) in
      rw flies (
        ap (λ q. (Queue.acknowledge table key q).0) same.twin_queue,
        refl,
        refl,
        acknowledge_session-cloud table key session d,
        Free-again session d' _ refl (acknowledge_session-Free table key session d o),
      )

module _ (fl : Floats) (supply : ℕ → Draw) where
  open fl use {Float}

  -- Nothing is pending under the table and key, what else was pending still is; the entry of the
  -- setting in flight is empty, and so is that of the session; the other sessions and the settings
  -- of the cloud are as before; and the next call delivers what is pending first.
  pub record IsFreed (table key : Text) (session : Option Text) (before after : Delivery Float)
      : Type 0 where
    pub removed :
        (t k : Text)
        → Queue.get t k after.twin_queue ≡ (
            if ◌==◌ {T = Text × Text} (table, key) (t, k)
            then none
            else Queue.get t k before.twin_queue)
    pub idle : after.inflight_key ≡ none
    pub free : Free session after
    pub others :
        (other : Text)
        → Dict.get other after.session_inflight
          ≡ (if is_session session other then none else Dict.get other before.session_inflight)
    pub cloud : after.cloud_pending ≡ before.cloud_pending
    pub next :
        (now now' now'' : ℕ) (device : Text)
        → (deliver_pending fl supply now now' now'' device session after).1
          ≡ first (Queue.get_pending after.twin_queue)

  -- When the setting in flight is acknowledged in a session that has no other one in flight: it is
  -- taken out of the queue, and no other; the entry of the setting in flight is empty, and so is
  -- that of the session, while those of other sessions and the settings of the cloud are as before;
  -- and the next call for this session delivers what is pending first, if anything is.
  pub acknowledge-frees :
      (table key : Text) (session : Option Text) (d : Delivery Float)
      → d.inflight_key ≡ some (table, key)
      → Own table key session d
      → IsFreed table key session d (acknowledge table key session d).0
  acknowledge-frees table key session d e o =
      let d' = (acknowledge table key session d).0 in
      let (same, idle, sessions, cloud, free) = acknowledge-inflight table key session d e o in
      record {
        removed = λ t k. rw same (get-acknowledge table key t k d.twin_queue).0;
        idle = idle;
        free = free;
        others = λ other. rw sessions (acknowledge_session-others table key session other d o);
        cloud = cloud;
        next = λ now now' now'' device.
            deliver_pending-first fl supply now now' now'' device session d' idle free;
      }
