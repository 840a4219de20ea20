-- ===== src/Delivery/Steps/Expiry.antt =====
-- The count of closing records across expiry, removal and the recording of steps.
use oig_proxy.Common.{
  ℕ, ◌+◌, ◌≡◌, inl, inr, Bool, true, none, some, List, [], ◌∷◌, arith, Text, text_eq, pair_eq,
  Option-cases, if◌then◌else◌, leb,
}
use oig_proxy.Common.Dict
use oig_proxy.Common.Keeps.{keep-if, keep-option}
use oig_proxy.Values.{Floats, null}
use oig_proxy.Audit.Steps.{
  SettingStep, ack_reason_setting, timeout, session_cleared, confirmed, pending,
}
use oig_proxy.Audit.Records.{Draw}
use oig_proxy.Queue
use oig_proxy.Queue.{TwinSetting}
use oig_proxy.Delivery.State.{CloudPending, Delivery, record_plain, record_ack_reason_setting}
use oig_proxy.Delivery.Cloud.{cloud_pending_key, iter_cloud_pending, remove_cloud_pending}
use oig_proxy.Delivery.Follow.{expire_one, expire_all, expire_cloud_pending, clear_all}
use oig_proxy.Delivery.Local.{record_queued}
use oig_proxy.Delivery.Terminal.{IsCounted, record_audit_step-IsCounted}

-- The two states have the same audit: what was emitted and recorded.
pub record SameAudit {F : Type 0} (d e : Delivery F) : Type 0 where
  pub emitted : d.emitted ≡ e.emitted
  pub recorded_terminal : d.recorded_terminal ≡ e.recorded_terminal

pub IsCounted-same : {F : Type 0} (d e : Delivery F) → SameAudit d e → IsCounted e → IsCounted d
IsCounted-same d e h c = record { at = λ id. rw (h.emitted, h.recorded_terminal) (c.at id) }

pub remove-SameAudit :
    {F : Type 0} (p : CloudPending F) (d : Delivery F) → SameAudit (remove_cloud_pending p d) d
unfolding remove_cloud_pending
remove-SameAudit p d = elim (Option-cases (Dict.get (cloud_pending_key p) d.cloud_pending)) [
  | inl e ↦ ground (arith, e)
  | inr (ps, e) ↦ ground (arith, e)
]

module _ {F : Type 0} where
  pub remove-IsCounted :
      (p : CloudPending F) (d : Delivery F) → IsCounted d → IsCounted (remove_cloud_pending p d)
  remove-IsCounted p d = IsCounted-same (remove_cloud_pending p d) d (remove-SameAudit p d)

module _ (fl : Floats) (supply : ℕ → Draw) where
  open fl use {Float}

  pub plain-IsCounted :
      (step : SettingStep) (s : TwinSetting Float) (device session : Text) (d : Delivery Float)
      → IsCounted d
      → IsCounted (record_plain fl supply step s device session d)
  unfolding record_plain
  plain-IsCounted step s device session d c =
      record_audit_step-IsCounted fl supply s device step none null none session d c

  pub reason-IsCounted :
      (s : TwinSetting Float) (device session : Text) (terminal : Bool) (d : Delivery Float)
      → IsCounted d
      → IsCounted (record_ack_reason_setting fl supply s device session terminal d)
  unfolding record_ack_reason_setting
  reason-IsCounted s device session terminal d c =
      record_audit_step-IsCounted fl supply s device ack_reason_setting
        (some (if terminal then confirmed else pending)) null none session d c

  pub queued-IsCounted :
      (step : SettingStep) (table key session : Text) (d : Delivery Float)
      → IsCounted d
      → IsCounted (record_queued fl supply step table key session d)
  unfolding record_queued
  queued-IsCounted step table key session d c =
      keep-option IsCounted (Queue.get table key d.twin_queue) c λ s.
        keep-option IsCounted d.inflight_device_id c
          λ device. plain-IsCounted step s device session d c

  pub expire_one-IsCounted :
      (now : ℕ) (p : CloudPending Float) (d : Delivery Float)
      → IsCounted d
      → IsCounted (expire_one fl supply now p d)
  unfolding expire_one
  expire_one-IsCounted now p d c =
      let plain =
        keep-if IsCounted (leb (p.tracked_at + d.inflight_timeout) now)
          (remove-IsCounted p _ (plain-IsCounted timeout p.setting p.device_id [] d c)) c in
      keep-if IsCounted p.reason_setting_seen
        (keep-option IsCounted p.reason_setting_at plain λ at.
          keep-if IsCounted (leb (at + d.inflight_timeout) now)
            (remove-IsCounted p _ (reason-IsCounted p.setting p.device_id [] true d c)) c)
        plain

  pub expire_all-IsCounted :
      (now : ℕ) (ps : List (CloudPending Float)) (d : Delivery Float)
      → IsCounted d
      → IsCounted (expire_all fl supply now ps d)
  unfolding expire_all
  expire_all-IsCounted now [] d c = c
  expire_all-IsCounted now (p ∷ ps) d c =
      expire_all-IsCounted now ps (expire_one fl supply now p d) (expire_one-IsCounted now p d c)

  pub expire-IsCounted :
      (now : ℕ) (d : Delivery Float)
      → IsCounted d
      → IsCounted (expire_cloud_pending fl supply now d)
  unfolding expire_cloud_pending
  expire-IsCounted now d c = expire_all-IsCounted now (iter_cloud_pending d) d c

  pub clear_all-IsCounted :
      (ps : List (CloudPending Float)) (d : Delivery Float)
      → IsCounted d
      → IsCounted (clear_all fl supply ps d)
  unfolding clear_all
  clear_all-IsCounted [] d c = c
  clear_all-IsCounted (p ∷ ps) d c =
      clear_all-IsCounted ps _
        (remove-IsCounted p _ (plain-IsCounted session_cleared p.setting p.device_id [] d c))
