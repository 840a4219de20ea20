-- ===== src/System/Delivered.antt =====
-- From the control message to the box.
use oig_proxy.Common.{
  ℕ, ◌≡◌, subst, arith, true, false, none, Option, some, List, [], ◌∷◌, Bool, Text, text_eq,
  pair_eq, Holds,
}
use oig_proxy.Common.Dict.{Dict, values}
use oig_proxy.Values.{Floats, ExactComparison}
use oig_proxy.Audit.Limits.{Tracking}
use oig_proxy.Audit.Records.{Draw}
use oig_proxy.Queue
use oig_proxy.Queue.{TwinSetting, new_queue, insert_sorted, sort_settings}
use oig_proxy.Delivery.State.{Delivery, new_delivery}
use oig_proxy.Delivery.Local.{
  deliver_pending, expire_inflight, expire_session, deliver_first, deliver_next, session_text,
}
use oig_proxy.Delivery.Steps.Taking.{expire_inflight-Has, expire_session-Has}
use oig_proxy.Delivery.Steps.Pending.{perform-Has}
use oig_proxy.Handler.{Json, TwinControlHandler}
use oig_proxy.Handler.Lemmas.{erase-Holds}
use oig_proxy.Handler.Admitted.{IsAdmitted, AllAdmitted, on_message-AllAdmitted}
use oig_proxy.System.{Happening, message, call, happen, run_system}

module _ {F : Type 0} (P : TwinSetting F → Type 0) where
  insert_sorted-Holds :
      (s : TwinSetting F) (xs : List (TwinSetting F))
      → P s
      → Holds P xs
      → Holds P (insert_sorted s xs)
  unfolding insert_sorted
  insert_sorted-Holds s [] h c = (h, tt)
  insert_sorted-Holds s (x ∷ xs) h c = ground (arith, insert_sorted-Holds s xs h)

  sort_settings-Holds : (xs : List (TwinSetting F)) → Holds P xs → Holds P (sort_settings xs)
  unfolding sort_settings
  sort_settings-Holds [] c = tt
  sort_settings-Holds (s ∷ ss) c =
      insert_sorted-Holds s (sort_settings ss) c.0 (sort_settings-Holds ss c.1)

module _ (fl : Floats) (supply : ℕ → Draw) (P : TwinSetting fl.Float → Type 0) where
  open fl use {Float}

  deliver_first-Holds :
      (now : ℕ) (device : Text) (session : Option Text) (l : List (TwinSetting Float))
      (d : Delivery Float) (s : TwinSetting Float)
      → Holds P l
      → (deliver_first fl supply now device session l d).1 ≡ some s
      → P s
  unfolding deliver_first
  deliver_first-Holds now device session [] d s c e = absurd (ground arith)
  deliver_first-Holds now device session (x ∷ xs) d s c e = subst P (ground arith) c.0

  deliver_next-Holds :
      (now : ℕ) (device : Text) (session : Option Text) (waits : Bool) (k : Option (Text × Text))
      (d : Delivery Float) (s : TwinSetting Float)
      → Holds P (values d.twin_queue.queue)
      → (deliver_next fl supply now device session waits k d).1 ≡ some s
      → P s
  unfolding deliver_next Queue.get_pending
  deliver_next-Holds now device session true k d s c e = absurd (ground arith)
  deliver_next-Holds now device session false (some k) d s c e = absurd (ground arith)
  deliver_next-Holds now device session false none d s c e =
      deliver_first-Holds now device session (Queue.get_pending d.twin_queue) d s
        (sort_settings-Holds P (values d.twin_queue.queue) c) e

  pub delivered-Holds :
      (t t' t'' : ℕ) (device : Text) (session : Option Text) (d : Delivery Float)
      (s : TwinSetting Float)
      → Holds P (values d.twin_queue.queue)
      → (deliver_pending fl supply t t' t'' device session d).1 ≡ some s
      → P s
  unfolding deliver_pending
  delivered-Holds t t' t'' device session d s c e =
      let Q : Dict (Text × Text) (TwinSetting Float) → Type 0 = λ q. Holds P (values q) in
      let d' = expire_inflight fl supply t (session_text session) d in
      let (d'', waits) = expire_session fl supply t' session d' in
      deliver_next-Holds t'' device session waits d''.inflight_key d'' s
        (expire_session-Has fl supply Q (erase-Holds P) t' session d'
          (expire_inflight-Has fl supply Q (erase-Holds P) t (session_text session) d c))
        e

module _ (fl : Floats) (exact : ExactComparison fl) (supply : ℕ → Draw)
    (read_json : Text → Json fl.Float) where
  open fl use {Float}

  happen-AllAdmitted :
      (x : Happening Float) (h : TwinControlHandler Float) (d : Delivery Float)
      → AllAdmitted fl exact d.twin_queue.queue
      → AllAdmitted fl exact (happen fl supply read_json x (h, d)).1.twin_queue.queue
  unfolding happen
  happen-AllAdmitted (message draws t raw) h d c =
      on_message-AllAdmitted fl exact supply read_json draws t raw h d c
  happen-AllAdmitted (call x i) h d c =
      perform-Has fl supply (AllAdmitted fl exact) (erase-Holds (IsAdmitted fl exact)) x d i c

  pub run_system-AllAdmitted :
      (xs : List (Happening Float)) (s : TwinControlHandler Float × Delivery Float)
      → AllAdmitted fl exact s.1.twin_queue.queue
      → AllAdmitted fl exact (run_system fl supply read_json xs s).1.twin_queue.queue
  unfolding run_system
  run_system-AllAdmitted [] s c = c
  run_system-AllAdmitted (x ∷ xs) s c =
      run_system-AllAdmitted xs (happen fl supply read_json x s) (happen-AllAdmitted x s.0 s.1 c)

  new-AllAdmitted :
      (epoch limit : ℕ) (collector : Bool) (t : Tracking)
      → AllAdmitted fl exact
          (new_delivery {F = Float} (new_queue epoch) limit collector t).twin_queue.queue
  unfolding new_delivery new_queue
  new-AllAdmitted epoch limit collector t = tt

  -- Whatever control messages arrive and whatever the server calls, in any order, a setting that
  -- `deliver_pending` then hands over for the box is on the whitelist, and its value is an integer
  -- within the bounds of its table and key.
  pub delivered-IsAdmitted :
      (epoch limit : ℕ) (collector : Bool) (tr : Tracking) (h : TwinControlHandler Float)
      (xs : List (Happening Float)) (t t' t'' : ℕ) (device : Text) (session : Option Text)
      (s : TwinSetting Float)
      → (deliver_pending fl supply t t' t'' device session
          (run_system fl supply read_json xs
            (h, new_delivery (new_queue epoch) limit collector tr)).1).1
        ≡ some s
      → IsAdmitted fl exact s
  delivered-IsAdmitted epoch limit collector tr h xs t t' t'' device session s e =
      let d = new_delivery {F = Float} (new_queue epoch) limit collector tr in
      delivered-Holds fl supply (IsAdmitted fl exact) t t' t'' device session
        (run_system fl supply read_json xs (h, d)).1 s
        (run_system-AllAdmitted xs (h, d) (new-AllAdmitted epoch limit collector tr)) e
