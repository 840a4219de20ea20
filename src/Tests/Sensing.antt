-- ===== src/Tests/Sensing.antt =====
-- A processor with one sensor, and frames of two devices.
use oig_proxy.Common.{
  ℕ, ◌≤◌, ◌≡◌, refl, Bool, true, false, none, some, List, [], ◌∷◌, Text, codes, text_eq,
}
use oig_proxy.Common.Dict
use oig_proxy.Common.Dict.{Dict}
use oig_proxy.Common.Decimal.{ℤ, pos}
use oig_proxy.Values.{Value, int, str, other}
use oig_proxy.Constraints.{parse_numeric, validate_setting_value}
use oig_proxy.Mode.{ModeManager, hybrid_text, init}
use oig_proxy.Server.Frames.{is_public}
use oig_proxy.Sensors.{Metadata, lookup, decode_warnings}
use oig_proxy.Sensors.Fields.{Python, actual_table}
use oig_proxy.Sensors.Processor.{FrameProcessor, process}
use oig_proxy.Sensors.Merging.{or_old, table_values, new_values, process-get, process-stale}
use oig_proxy.App.{ProxyApp, on_frames, handle_proxy_control}
use oig_proxy.App.Own.{own, on_frames-own}
use oig_proxy.App.Control.{proxy_control, proxy_mode, numbered_mode, handle_proxy_control-accepted}
use oig_proxy.Tests.{whole, whole-ExactComparison}
use oig_proxy.Tests.Broker.{client, takes_all, digit}

abbrev device : Text
device = codes "2206237016"

abbrev box : Text
box = codes "tbl_box"

abbrev python : Python ℤ
python = record {
  show_list = λ vs. codes "list";
  iso_of = λ s. none;
  same = λ v w. false;
  int_of = digit;
}

abbrev fault_sensor : Metadata (Value ℤ)
fault_sensor = record {
  name_cs = [];
  name = codes "Fault";
  unit_of_measurement = [];
  device_class = [];
  state_class = [];
  is_binary = false;
  entity_category = [];
  device_mapping = [];
  enum_map = [];
  warnings_3f =
      (record {
        bit = some 2;
        key = some (codes "ERR_PV");
        warning_code = none;
        remark = [];
        remark_cs = [];
      })
      ∷ [];
}

abbrev processor : FrameProcessor ℤ
processor = record {
  proxy_device_id = codes "oig_proxy";
  sensors = (codes "tbl_box:ERR", fault_sensor) ∷ [];
  missing_map_logged = [];
  battery_bank_count_by_device = [];
  last_table_values = ((device, box), (codes "ERR_warnings", other (codes "['ERR_PV']")) ∷ []) ∷ [];
}

decode_five : decode_warnings (pos 5) fault_sensor.warnings_3f ≡ codes "ERR_PV" ∷ []
unfolding decode_warnings
decode_five = refl

temperature_published :
    Dict.get (codes "Temp") (
      table_values whole python
        (process whole python takes_all device box
          ((codes "Temp", int (pos 21)) ∷ [])
          (processor, client)).0
        device
        box)
    ≡ or_old
        (Dict.get
          (codes "Temp")
          (new_values whole python processor box ((codes "Temp", int (pos 21)) ∷ [])))
        (Dict.get (codes "Temp") (table_values whole python processor device box))
unfolding actual_table is_public
temperature_published =
    process-get whole python takes_all device box (codes "Temp") (codes "Temp", int (pos 21)) []
      processor client refl refl refl refl

process-stale_example :
    Dict.get (codes "ERR_warnings") (
      table_values whole python
        (process whole python takes_all device box
          ((codes "ERR", int (pos 0)) ∷ [])
          (processor, client)).0
        device
        box)
    ≡ some (other (codes "['ERR_PV']"))
unfolding actual_table lookup decode_warnings Dict.get is_public
process-stale_example =
    process-stale whole python takes_all device box (codes "ERR") (pos 0) fault_sensor
      (other (codes "['ERR_PV']")) processor client refl refl refl refl refl refl refl

abbrev app : ProxyApp ℤ ℕ
app = record {
  device_id = some device;
  status_publisher = none;
  both = (processor, client);
  has_collector = true;
  collector_device_id = device;
  tbl_events = [];
}

abbrev frame_of : Text → Dict Text (Value ℤ)
frame_of id =
    (codes "_device_id", str id) ∷ (codes "_table", str box) ∷ (codes "Temp", int (pos 21)) ∷ []

abbrev frames : List (Bool × ℕ × Dict Text (Value ℤ))
frames = (true, 1, frame_of device) ∷ (true, 2, frame_of (codes "7")) ∷ []

on_frames-own_example :
    (on_frames whole python takes_all frames app
      ≡ on_frames whole python takes_all (own whole device frames) app)
    × ((on_frames whole python takes_all frames app).device_id ≡ some device)
on_frames-own_example = on_frames-own whole python takes_all device frames app refl

abbrev manager : ModeManager
manager = init hybrid_text 3 60 true

handle_proxy_control-accepted_example :
    (n : ℕ) × (n ≤ 2)
    × (◌≡◌ {A = Value ℤ} (int (pos 1)) (int (pos n)))
    × ((handle_proxy_control whole digit proxy_control proxy_mode (int (pos 1)) (manager, app)).1
        ≡ true)
    × ((handle_proxy_control whole digit proxy_control proxy_mode
          (int (pos 1))
          (manager, app)).0.0.configured_mode
        ≡ numbered_mode n)
unfolding validate_setting_value parse_numeric
handle_proxy_control-accepted_example =
    handle_proxy_control-accepted whole digit whole-ExactComparison (int (pos 1)) (int (pos 1))
      manager app refl
