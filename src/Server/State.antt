-- ===== src/Server/State.antt =====
-- proxy/server.py: the state of `ProxyServer`, and what one frame finds on the clocks.
use oig_proxy.Common.{ℕ, Bool, Option, List, Text}
use oig_proxy.Common.Dict.{Dict}
use oig_proxy.Values.{Value}
use oig_proxy.Frame.Crc.{Bytes}
use oig_proxy.Mode.{ModeManager}
use oig_proxy.Delivery.State.{Delivery}

-- A call of `on_confirmed_setting`.
pub record Confirmed (F : Type 0) : Type 0 where
  pub device_id : Text
  pub table : Text
  pub key : Text
  pub value : Value F

-- What is written to the box and the cloud, and the calls of the callbacks, are lists, the last
-- first. The flags say whether the collaborator is set.
pub record ProxyServer (F : Type 0) : Type 0 where
  pub has_twin_delivery : Bool
  pub twin_delivery : Delivery F
  pub mode_manager : ModeManager
  pub has_on_frame : Bool
  pub has_on_confirmed_setting : Bool
  pub frames_received : ℕ
  pub frames_forwarded : ℕ
  pub published : List (Dict Text (Value F))
  pub confirmed : List (Confirmed F)
  pub to_box : List Bytes
  pub to_cloud : List Bytes

-- The clock readings, the random numbers and the outcomes of writes that one frame meets.
pub record Readings : Type 0 where
  -- `deliver_pending`: its three readings
  pub deliver : ℕ × (ℕ × ℕ)
  pub inflight_at : ℕ
  pub match_at : ℕ
  pub mark_at : ℕ × ℕ
  -- the two calls of `is_cloud_inflight`
  pub poll_at : ℕ
  pub cloud_at : ℕ
  -- `begin_cloud_setting`, and `clear_cloud_inflight`
  pub begin_at : ℕ × (ℕ × ℕ)
  pub clear_at : ℕ
  -- ids and the times in a setting frame
  pub epoch : ℕ
  pub msg_random : ℕ
  pub setting_now : ℕ
  pub setting_random : ℕ
  pub setting_ver : ℕ
  -- the local and the UTC time of a local answer
  pub now_local : Bytes
  pub now_utc : Bytes
  -- the content of the file that is replayed, if it is there
  pub replay : Option Bytes
  -- whether the box takes that content, a setting, a local answer
  pub replay_sent : Bool
  pub setting_sent : Bool
  pub answer_sent : Bool
