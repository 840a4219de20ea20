-- ===== src/Tests/Control.antt =====
-- Concrete control messages, and what comes of them at the box.
use oig_proxy.Common.{
  ◌≡◌, refl, true, false, none, some, [], ◌∷◌, codes, Text, text_eq, pair_eq, arith,
}
use oig_proxy.Common.Decimal.{ℤ, pos}
use oig_proxy.Values.{int, str}
use oig_proxy.Constraints.{is_setting_allowed}
use oig_proxy.Common.Dict
use oig_proxy.Queue
use oig_proxy.Audit.Limits.{touch_audit_tracking, apply_raw_text_limits}
use oig_proxy.Audit.Records.{is_sensitive_key, make_incoming_record, make_step_record}
use oig_proxy.Queue.{TwinSetting, new_queue}
use oig_proxy.Delivery.State.{Delivery, new_delivery}
use oig_proxy.Delivery.Local.{deliver_pending}
use oig_proxy.Frame.Fields.{render, elements-render}
use oig_proxy.Frame.Match.{not_open}
use oig_proxy.Frame.Parse.{is_word, elements}
use mathlib.Core.Option.{Option}
use oig_proxy.Handler.{Json, object, TwinControlHandler, request, on_message}
use oig_proxy.Handler.Refusals.{IsRefusal, on_message-refused}
use oig_proxy.Handler.Admitted.{IsAdmitted}
use oig_proxy.System.{message, run_system}
use oig_proxy.System.Delivered.{delivered-IsAdmitted}
use oig_proxy.Tests.{whole, whole-ExactComparison, supply, draws}

abbrev handler : TwinControlHandler ℤ
handler = record {
  device_id = codes "22";
  namespace = codes "oig_local";
  proxy_control_handler = none;
  subscribed = true;
  topics = [];
  controls = [];
}

abbrev read_json : Text → Json ℤ
read_json s = object (
    (codes "table", str (codes "tbl_box_prms"))
    ∷ (codes "key", str (codes "MODE"))
    ∷ (codes "value", int (pos 3))
    ∷ [])

abbrev json_topic : Text
json_topic = codes "oig/22/control/set"

abbrev other_topic : Text
other_topic = codes "oig_local/22/set/tbl_box_prms/ISON"

abbrev empty : Delivery ℤ
empty = new_delivery (new_queue 1000) 60 true (record { raw_bytes = []; last_seen = [] })

on_message-refused_example :
    IsRefusal whole supply false handler empty
      (on_message whole supply read_json (draws 5) other_topic (codes "3") handler empty)
unfolding request is_setting_allowed
on_message-refused_example =
    on_message-refused whole supply read_json (draws 5) other_topic (codes "3")
      (record { table = codes "tbl_box_prms"; key = codes "ISON"; value = str (codes "3") }) handler
      empty refl refl

elements-render_example :
    elements 0 (render ((codes "MODE", codes "3") ∷ (codes "T_2", codes "-1.5") ∷ []))
    ≡ ((codes "MODE", codes "3") ∷ (codes "T_2", codes "-1.5") ∷ [])
unfolding is_word not_open
elements-render_example =
    elements-render ((codes "MODE", codes "3") ∷ (codes "T_2", codes "-1.5") ∷ []) (
      record {
        named = omega arith;
        word = (refl, (refl, (refl, (refl, tt))));
        open_free = (refl, tt);
      },
      (
        record {
          named = omega arith;
          word = (refl, (refl, (refl, tt)));
          open_free = (refl, (refl, (refl, (refl, tt))));
        },
        tt,
      ),
    )

abbrev after_messages : TwinControlHandler ℤ × Delivery ℤ
after_messages =
    run_system whole supply read_json
      (message (draws 5) other_topic (codes "3") ∷ message (draws 8) json_topic (codes "3") ∷ [])
      (handler, empty)

abbrev sent : Option (TwinSetting ℤ)
sent = (deliver_pending whole supply 20 20 20 (codes "22") none after_messages.1).1

abbrev sent_mode : TwinSetting ℤ
sent_mode = record {
  table = codes "tbl_box_prms";
  key = codes "MODE";
  value = int (pos 3);
  enqueued_at = 8;
  raw_text = codes "3";
  audit_id = codes "aud_00000000000000_000002";
  msg_id = pos 14000008;
  id_set = pos 1000;
  confirm = codes "New";
}

sent_lem : sent ≡ some sent_mode
unfolding deliver_pending run_system new_delivery new_queue Dict.put Queue.get_pending
    make_incoming_record apply_raw_text_limits make_step_record touch_audit_tracking
    is_sensitive_key
sent_lem = refl

delivered-IsAdmitted_example : IsAdmitted whole whole-ExactComparison sent_mode
delivered-IsAdmitted_example =
    delivered-IsAdmitted whole whole-ExactComparison supply read_json 1000 60 true
      (record { raw_bytes = []; last_seen = [] }) handler
      (message (draws 5) other_topic (codes "3") ∷ message (draws 8) json_topic (codes "3") ∷ []) 20
      20 20 (codes "22") none sent_mode sent_lem
