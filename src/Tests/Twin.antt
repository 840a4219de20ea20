-- ===== src/Tests/Twin.antt =====
-- A queue of two settings and its delivery.
use oig_proxy.Common.{
  ◌≡◌, refl, ◌∙◌, ◌≤◌, inr, true, none, some, List, [], ◌∷◌, codes, Text, text_eq, pair_eq, arith,
  Holds,
}
use oig_proxy.Common.Dict
use oig_proxy.Common.Dict.{values}
use oig_proxy.Common.Decimal.{ℤ, pos, negsuc, lt_int}
use oig_proxy.Values.{int}
use oig_proxy.Queue
use oig_proxy.Queue.{
  TwinSetting, TwinQueue, new_queue, new_setting, enqueue, get_pending, size, generate_id_set,
  max_id_set,
}
use oig_proxy.Queue.Refines.{
  QueueCall, enqueues, acknowledges, after_calls, promised, content, get-promised,
}
use oig_proxy.Queue.Laws.{Filed, enqueue-Filed}
use oig_proxy.Delivery.State.{Delivery, new_delivery, record_audit_step}
use oig_proxy.Audit.Steps.{is_terminal}
use oig_proxy.Delivery.Local.{deliver_pending, acknowledge}
use oig_proxy.Delivery.Counters.{next_id_set, observe_all, IsBelow, next_id_set-fresh}
use oig_proxy.Delivery.Exclusive.{deliver_pending-exclusive}
use oig_proxy.Delivery.Selects.{
  first, Free, IsInFlight, deliver_pending-selects, deliver_pending-first,
}
use oig_proxy.Delivery.Drops.{Ready, IsHandedOver, deliver_pending-drops}
use oig_proxy.Delivery.Acknowledged.{Own, IsFreed, acknowledge-frees}
use oig_proxy.Delivery.Terminal.{closings}
use oig_proxy.Delivery.Steps
use oig_proxy.Delivery.Steps.{Call, perform_all}
use oig_proxy.Delivery.Steps.Counted.{closings-at_most_three}
use oig_proxy.Tests.{whole, supply, draws}

abbrev table : Text
table = codes "tbl_box_prms"

abbrev mode : Text
mode = codes "MODE"

abbrev boiler : Text
boiler = codes "tbl_boiler_prms"

abbrev manual : Text
manual = codes "MANUAL"

abbrev device : Text
device = codes "2206237016"

abbrev session : Text
session = codes "s1"

abbrev one : TwinQueue ℤ
one = enqueue (draws 10) table mode (int (pos 3)) (codes "New") [] (codes "raw") (new_queue 1000)

abbrev two : TwinQueue ℤ
two = enqueue (draws 12) boiler manual (int (pos 1)) (codes "New") [] (codes "raw") one

new-Filed : Filed {F = ℤ} (new_queue 1000).queue
unfolding new_queue
new-Filed = tt

two-Filed : Filed two.queue
two-Filed =
    enqueue-Filed (draws 12) boiler manual (int (pos 1)) (codes "New") [] (codes "raw") one (
      enqueue-Filed (draws 10) table mode (int (pos 3)) (codes "New") [] (codes "raw")
        (new_queue 1000) new-Filed)

abbrev front : TwinSetting ℤ
front = new_setting (draws 10) table mode (int (pos 3)) (codes "New") [] (codes "raw") 1000

abbrev behind : TwinSetting ℤ
behind = new_setting (draws 12) boiler manual (int (pos 1)) (codes "New") [] (codes "raw") 1001

two-pending : get_pending two ≡ front ∷ behind ∷ []
unfolding get_pending enqueue new_queue new_setting Dict.put
two-pending = refl

abbrev idle : Delivery ℤ
idle = new_delivery two 30 true (record { raw_bytes = []; last_seen = [] })

abbrev started : Delivery ℤ
started = (deliver_pending whole supply 20 20 20 device (some session) idle).0

idle-Free : (idle.inflight_key ≡ none) × Free (some session) idle
unfolding new_delivery Dict.get
idle-Free = (refl, refl)

idle-Filed : Filed idle.twin_queue.queue
unfolding new_delivery
idle-Filed = two-Filed

idle-pending : first (get_pending idle.twin_queue) ≡ some front
unfolding new_delivery get_pending enqueue new_queue new_setting Dict.put
idle-pending = refl

delivers_first :
    (deliver_pending whole supply 20 20 20 device (some session) idle).1
    ≡ first (get_pending idle.twin_queue)
delivers_first =
    deliver_pending-first whole supply 20 20 20 device (some session) idle idle-Free.0 idle-Free.1

deliver_pending-selects_example :
    IsInFlight whole supply 20 device (some session) front started
    × (Queue.get front.table front.key started.twin_queue ≡ some front)
    × Holds (λ x. front.enqueued_at ≤ x.enqueued_at) (values started.twin_queue.queue)
deliver_pending-selects_example =
    deliver_pending-selects whole supply 20 20 20 device (some session) idle front idle-Filed
      (delivers_first ∙ idle-pending)

in_flight : IsInFlight whole supply 20 device (some session) front started
in_flight = deliver_pending-selects_example.0

started-state : (started.inflight_timeout ≡ 30) × Free (some (codes "s2")) started
unfolding deliver_pending Dict.get new_delivery get_pending enqueue Dict.put new_queue
    record_audit_step is_terminal
started-state = (refl, refl)

mode-in_flight : started.inflight_key ≡ some (table, mode)
unfolding new_setting
mode-in_flight = in_flight.key

-- Thirty microseconds is the timeout here.
deliver_pending-exclusive_example :
    let (d', delivered) =
      deliver_pending whole supply 40 40 40 device (some (codes "s2")) started in
    (delivered ≡ none)
    × (d'.twin_queue ≡ started.twin_queue)
    × (d'.inflight_key ≡ some (table, mode))
    × (d'.inflight_since ≡ some 20)
deliver_pending-exclusive_example =
    deliver_pending-exclusive whole supply 40 40 40 device (some (codes "s2")) started (table, mode)
      20 mode-in_flight in_flight.since (omega (arith, started-state.0))

session-Ready : Ready 50 (some session) started
session-Ready = inr (_, in_flight.at_session, omega (arith, started-state.0))

deliver_pending-drops_example :
    let (d', delivered) = deliver_pending whole supply 50 50 50 device (some session) started in
    (delivered ≡ first (get_pending d'.twin_queue))
    × (d'.twin_queue ≡ (Queue.acknowledge table mode started.twin_queue).0)
    × (Queue.get table mode d'.twin_queue ≡ none)
    × IsHandedOver whole supply 50 device (some session) delivered d'
deliver_pending-drops_example =
    deliver_pending-drops whole supply 50 50 50 device (some session) started (table, mode) 20
      mode-in_flight in_flight.since (omega (arith, started-state.0)) session-Ready

session-Own : Own table mode (some session) started
unfolding new_setting
session-Own = inr (_, in_flight.at_session, refl, refl)

acknowledge-frees_example :
    IsFreed whole supply table mode
      (some session)
      started
      (acknowledge table mode (some session) started).0
acknowledge-frees_example =
    acknowledge-frees whole supply table mode (some session) started mode-in_flight session-Own

next_id_set-fresh_example :
    let ids = pos 1700000500 ∷ negsuc 4 ∷ pos 12 ∷ [] in
    let (d', id) = next_id_set 1700000000 (observe_all ids idle) in
    Holds (λ n. lt_int n id ≡ true) ids
    × (lt_int (pos 1700000000) id ≡ true)
    × IsBelow idle.last_seen_id_set id
    × (d'.last_seen_id_set ≡ some id)
next_id_set-fresh_example =
    next_id_set-fresh 1700000000 (pos 1700000500 ∷ negsuc 4 ∷ pos 12 ∷ []) idle

abbrev calls : List (Call ℤ)
calls =
    Steps.deliver 20 20 20 device (some session)
    ∷ Steps.confirm table mode (some session)
    ∷ Steps.deliver 60 60 60 device none
    ∷ Steps.end_session session
    ∷ Steps.stop
    ∷ []

closings-at_most_three_example :
    closings front.audit_id (perform_all whole supply calls idle).emitted ≤ 3
closings-at_most_three_example =
    closings-at_most_three whole supply two 30 true (record { raw_bytes = []; last_seen = [] })
      calls front.audit_id

abbrev queue_calls : List (QueueCall ℤ)
queue_calls =
    enqueues (draws 9) table mode (int (pos 2)) (codes "New") [] (codes "b")
    ∷ acknowledges boiler manual
    ∷ enqueues (draws 7) table mode (int (pos 1)) (codes "New") [] (codes "a")
    ∷ []

get-promised_example :
    content (Queue.get table mode (after_calls 1000 queue_calls)) ≡ promised queue_calls table mode
get-promised_example = get-promised 1000 queue_calls table mode
