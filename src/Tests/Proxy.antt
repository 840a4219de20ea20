-- ===== src/Tests/Proxy.antt =====
-- Concrete frames of the box, on their way through the server.
use oig_proxy.Common.{
  ◌≡◌, refl, true, false, Option, none, [], ◌∷◌, ◌++◌, codes, Text, text_eq, pair_eq, Holds,
}
use oig_proxy.Common.Decimal.{ℤ, pos, show_int}
use oig_proxy.Common.Dict
use oig_proxy.Values.{int}
use oig_proxy.Mode.{init}
use oig_proxy.Queue
use oig_proxy.Queue.{TwinSetting, new_queue, enqueue}
use oig_proxy.Frame.Crc.{Bytes}
use oig_proxy.Frame.Extract.{extract_frames}
use oig_proxy.Delivery.State.{Delivery, new_delivery}
use oig_proxy.Delivery.Local.{deliver_pending}
use oig_proxy.Server.State.{ProxyServer, Readings}
use oig_proxy.Server.Box.{Read, handle_box_frame, handle_offline_frames, pipe_box_to_cloud}
use oig_proxy.Server.Answers.{Keeps, device_of, handle_box_frame-Answered}
use oig_proxy.Server.Forwarding.{IsQuiet}
use oig_proxy.Server.Bytes.{
  IsWhole, sent_before, cut, pipe_box_to_cloud-sends, pipe_box_to_cloud-repeats,
}
use oig_proxy.Server.Offline.{answers_before, handle_offline_frames-answers}
use oig_proxy.Tests.{whole, supply, draws}

abbrev server_of : Delivery ℤ → ProxyServer ℤ
server_of d = record {
  has_twin_delivery = true;
  twin_delivery = d;
  mode_manager = init (codes "online") 3 60 false;
  has_on_frame = true;
  has_on_confirmed_setting = true;
  frames_received = 0;
  frames_forwarded = 0;
  published = [];
  confirmed = [];
  to_box = [];
  to_cloud = [];
}

abbrev at_noon : Readings
at_noon = record {
  deliver = (20, (20, 20));
  inflight_at = 20;
  match_at = 20;
  mark_at = (20, 20);
  poll_at = 20;
  cloud_at = 20;
  begin_at = (20, (20, 20));
  clear_at = 20;
  epoch = 1000;
  msg_random = 5;
  setting_now = 1000;
  setting_random = 6;
  setting_ver = 7;
  now_local = codes "l";
  now_utc = codes "u";
  replay = none;
  replay_sent = true;
  setting_sent = true;
  answer_sent = true;
}

abbrev quiet : Delivery ℤ
quiet = new_delivery (new_queue 1000) 60 true (record { raw_bytes = []; last_seen = [] })

abbrev three_waits : Delivery ℤ
three_waits = record quiet {
  twin_queue =
      enqueue (draws 10) (codes "tbl_box_prms") (codes "MODE") (int (pos 3)) (codes "New")
        (codes "a") (codes "3") (new_queue 1000);
}

abbrev decode : Bytes → Text
decode b = b

abbrev read_int : Text → Option ℤ
read_int s = none

abbrev read_of : Bytes → Read
read_of b = record {
  data_bytes = b;
  readings = λ n. at_noon;
  offline_readings = λ n. at_noon;
  cloud_sent = true;
  failed_at = (0, 0);
  failure = [];
}

abbrev poll : Bytes
poll = codes "<Frame><Result>IsNewSet</Result><ID_Device>22</ID_Device></Frame>\r\n"

-- The key is MODE.
abbrev IsMode : TwinSetting ℤ → Type 0
IsMode s = s.key ≡ codes "MODE"

three_waits-Holds : Holds IsMode (Dict.values three_waits.twin_queue.queue)
unfolding enqueue new_queue Dict.put
three_waits-Holds = (refl, tt)

handle_box_frame-Answered_example :
    Keeps whole supply decode read_int show_int show_int IsMode at_noon
      (device_of whole supply decode read_int show_int show_int IsMode poll)
      []
      (handle_box_frame whole supply decode read_int show_int show_int at_noon none poll
        (server_of three_waits))
handle_box_frame-Answered_example =
    handle_box_frame-Answered whole supply decode read_int show_int show_int IsMode at_noon none
      poll (server_of three_waits) three_waits-Holds

quiet-IsQuiet : IsQuiet (server_of quiet)
unfolding new_delivery new_queue
quiet-IsQuiet = refl

poll-IsWhole : IsWhole (read_of poll)
unfolding extract_frames
poll-IsWhole = record { none_left = refl; sent = refl }

pipe_box_to_cloud-sends_example :
    let s' =
      pipe_box_to_cloud whole supply decode read_int show_int show_int none
        (read_of poll ∷ read_of poll ∷ [])
        []
        (server_of quiet) in
    (s'.to_cloud ≡ sent_before (read_of poll ∷ read_of poll ∷ []) []) × (s'.to_box ≡ [])
pipe_box_to_cloud-sends_example =
    pipe_box_to_cloud-sends whole supply decode read_int show_int show_int none
      (read_of poll ∷ read_of poll ∷ []) (server_of quiet) quiet-IsQuiet
      (poll-IsWhole, (poll-IsWhole, tt))

abbrev first_part : Bytes
first_part = codes "<Frame><Resu"

abbrev second_part : Bytes
second_part = codes "lt>IsNewSet</Result></Frame>\r\n"

first_part-cut : cut first_part ≡ ([], first_part)
unfolding extract_frames
first_part-cut = refl

both_parts-cut : cut (first_part ++ second_part) ≡ ((first_part ++ second_part) ∷ [], [])
unfolding extract_frames
both_parts-cut = refl

pipe_box_to_cloud-repeats_example :
    (pipe_box_to_cloud whole supply decode read_int show_int show_int none
      (read_of first_part ∷ read_of second_part ∷ [])
      []
      (server_of quiet)).to_cloud
    ≡ (first_part ++ second_part) ∷ first_part ∷ []
pipe_box_to_cloud-repeats_example =
    pipe_box_to_cloud-repeats whole supply decode read_int show_int show_int none
      (read_of first_part) (read_of second_part) (server_of quiet) quiet-IsQuiet refl refl
      first_part-cut both_parts-cut

abbrev in_flight : Delivery ℤ
in_flight = (deliver_pending whole supply 10 10 10 (codes "22") none three_waits).0

abbrev refusal : Bytes
refusal = codes "<Frame><Result>NACK</Result></Frame>"

abbrev flown : TwinSetting ℤ
flown = record {
  table = codes "tbl_box_prms";
  key = codes "MODE";
  value = int (pos 3);
  enqueued_at = 10;
  raw_text = codes "3";
  audit_id = codes "a";
  msg_id = pos 14000010;
  id_set = pos 1000;
  confirm = codes "New";
}

handle_offline_frames-answers_example :
    let (s', left) =
      handle_offline_frames whole supply decode read_int show_int show_int
        (λ n. at_noon)
        none
        (poll ∷ refusal ∷ [])
        (server_of quiet) in
    (s'.to_box
      ≡ answers_before whole supply decode read_int show_int show_int
          (λ n. at_noon)
          (poll ∷ refusal ∷ [])
          [])
    × (s'.to_cloud ≡ [])
    × (left ≡ [])
handle_offline_frames-answers_example =
    handle_offline_frames-answers whole supply decode read_int show_int show_int (λ n. at_noon) none
      (poll ∷ refusal ∷ []) (server_of quiet) quiet-IsQuiet λ n. refl
