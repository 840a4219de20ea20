-- ===== src/Handler/Lemmas.antt =====
-- The parts of the handler that only record leave the queue as it is.
use oig_proxy.Common.{
  ℕ, ◌≡◌, refl, inl, inr, subst, Bool-cases, ap, ◌∙◌, codes, Eq, Option, none, some, [], ◌∷◌, arith,
  Text, ◌==◌, text_eq, pair_eq, Holds,
}
use oig_proxy.Common.Dict
use oig_proxy.Common.Dict.{Dict, values}
use oig_proxy.Common.Decimal.{ℤ}
use oig_proxy.Values.{Floats, Value}
use oig_proxy.Audit.Steps.{SettingStep, SettingResult}
use oig_proxy.Audit.Records.{Draw, SettingsAuditRecord}
use oig_proxy.Queue
use oig_proxy.Queue.{TwinSetting, Draws}
use oig_proxy.Delivery.State.{Delivery}
use oig_proxy.Handler.{
  record_setting_audit, incoming_record, record_step, supersede, supersede_pending, record_enqueued,
  enqueue_setting,
}

module _ {K V : Type 0} ⦃e : Eq K⦄ (P : V → Type 0) where
  -- Every value of the dictionary satisfies the predicate, and so does every value that is put in.
  pub put-Holds :
      (k : K) (v : V) (d : Dict K V) → P v → Holds P (values d) → Holds P (values (Dict.put k v d))
  unfolding Dict.put
  put-Holds k v [] h c = (h, tt)
  put-Holds k v ((j, w) ∷ d) h c = ground (arith, put-Holds k v d h)

  pub erase-Holds : (k : K) (d : Dict K V) → Holds P (values d) → Holds P (values (Dict.erase k d))
  unfolding Dict.erase
  erase-Holds k [] c = tt
  erase-Holds k ((j, w) ∷ d) c = ground (arith, erase-Holds k d)

  pub get-Holds : (k : K) (d : Dict K V) (v : V) → Holds P (values d) → Dict.get k d ≡ some v → P v
  unfolding Dict.get
  get-Holds k [] v c g = absurd (ground arith)
  get-Holds k ((j, w) ∷ d) v c g = elim (Bool-cases (j == k)) [
    | inl same ↦ subst P (ground (arith, same)) c.0
    | inr other ↦ get-Holds k d v c.1 (ground (arith, other))
  ]

module _ (fl : Floats) (supply : ℕ → Draw) where
  open fl use {Float}

  pub queue-record_step :
      (r : SettingsAuditRecord Float) (step : SettingStep) (result : Option SettingResult)
      (raw : Option Text) (msg set : Option ℤ) (d : Delivery Float)
      → (record_step fl supply r step result raw msg set d).twin_queue ≡ d.twin_queue
  unfolding record_step record_setting_audit
  queue-record_step r step result raw msg set d = ground arith

  queue-supersede :
      (device : Text) (s : TwinSetting Float) (d : Delivery Float)
      → (supersede fl supply device s d).twin_queue ≡ d.twin_queue
  unfolding supersede
  queue-supersede device s d =
      queue-record_step _ _ _ _ _ _
        (incoming_record fl supply device s.table s.key s.raw_text s.value s.msg_id s.id_set d).1

  queue-supersede_pending :
      (device : Text) (o : Option (TwinSetting Float)) (d : Delivery Float)
      → (supersede_pending fl supply device o d).twin_queue ≡ d.twin_queue
  unfolding supersede_pending
  queue-supersede_pending device none d = refl
  queue-supersede_pending device (some s) d = ground (arith, queue-supersede device s d)

  queue-record_enqueued :
      (r : SettingsAuditRecord Float) (o : Option (TwinSetting Float)) (d : Delivery Float)
      → (record_enqueued fl supply r o d).twin_queue ≡ d.twin_queue
  unfolding record_enqueued
  queue-record_enqueued r none d = queue-record_step _ _ _ _ _ _ d
  queue-record_enqueued r (some s) d = queue-record_step _ _ _ _ _ _ d

  -- A setting that is accepted changes the queue as `enqueue` does.
  pub queue-enqueue_setting :
      (device : Text) (draws : Draws) (r : SettingsAuditRecord Float) (table key : Text)
      (v : Value Float) (d : Delivery Float)
      → (enqueue_setting fl supply device draws r table key v d).twin_queue
        ≡ Queue.enqueue draws table key v (codes "New") r.audit_id r.raw_text d.twin_queue
  unfolding enqueue_setting
  queue-enqueue_setting device draws r table key v d =
      let d' = supersede_pending fl supply device (Queue.get table key d.twin_queue) d in
      let q = Queue.enqueue draws table key v (codes "New") r.audit_id r.raw_text d'.twin_queue in
      queue-record_enqueued r (Queue.get table key q) (record d' { twin_queue = q })
      ∙ ap (Queue.enqueue draws table key v (codes "New") r.audit_id r.raw_text)
          (queue-supersede_pending device (Queue.get table key d.twin_queue) d)
