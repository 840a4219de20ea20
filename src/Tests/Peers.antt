-- ===== src/Tests/Peers.antt =====
-- Concrete connections of boxes.
use oig_proxy.Common.{◌≡◌, refl, true, false, none, [], ◌∷◌, codes, arith}
use oig_proxy.Mode.{init}
use oig_proxy.Server.Connections.{
  failed, connected, Connections, Arrival, Attempt, arrive, attempt, leave, Reaches, arrives,
  answered, ends, here, then_step,
}
use oig_proxy.Server.Connections.Accounting.{IsCounted, Reaches-IsCounted}
use oig_proxy.Server.Connections.Exhausted.{by_error, IsLeaking, lose_all, lose_all-rejects}

abbrev empty_server : Connections
empty_server = record {
  max_concurrent_connections = 1;
  active_connection_count = 0;
  box_connected = false;
  box_peer = none;
  cloud_connected = false;
  cloud_connects = 0;
  cloud_disconnects = 0;
  cloud_timeouts = 0;
  cloud_errors = 0;
  manager = init (codes "online") 3 60 false;
  open_phases = [];
}

abbrev good_box : Arrival
good_box = record { peer = codes "10.0.0.2:5710"; now = 10 }

abbrev good_cloud : Attempt
good_cloud = record { outcome = connected; noted_at = (10, 10); reason = []; closes = true }

-- The cloud refuses, and the writer of the box has lost its connection.
abbrev lost_cloud : Attempt
lost_cloud = record good_cloud { outcome = failed; closes = false }

abbrev forwarded : Connections
forwarded = attempt 0 good_cloud (arrive good_box empty_server)

empty_server-IsCounted : IsCounted 1 empty_server
empty_server-IsCounted = record { same_limit = refl; counted = omega arith; limited = omega arith }

Reaches-IsCounted_example : IsCounted 1 (leave 0 forwarded)
Reaches-IsCounted_example =
    Reaches-IsCounted 1 empty_server (leave 0 forwarded) empty_server-IsCounted
      (then_step (then_step (then_step here (arrives good_box)) (answered 0 good_cloud)) (ends 0))

empty_server-IsLeaking : IsLeaking 1 0 empty_server
unfolding init
empty_server-IsLeaking = record {
  same_limit = refl;
  counted = refl;
  none_open = refl;
  is_online = refl;
  is_up = refl;
}

abbrev lost_box : Connections
lost_box = lose_all ((good_box, lost_cloud) ∷ []) empty_server

lose_all-rejects_example :
    Reaches empty_server lost_box
    × (arrive good_box (arrive good_box lost_box) ≡ arrive good_box lost_box)
    × ((arrive good_box lost_box).open_phases ≡ [])
lose_all-rejects_example =
    lose_all-rejects 1 ((good_box, lost_cloud) ∷ []) empty_server (arrive good_box lost_box)
      good_box empty_server-IsLeaking ((by_error, refl), tt) refl
      (then_step here (arrives good_box))
