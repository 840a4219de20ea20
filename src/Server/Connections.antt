-- ===== src/Server/Connections.antt =====
-- proxy/server.py: the connections of boxes, `_handle_box_connection` and `_run_box_offline_session`
-- up to what their pipes do. A connection arrives; where the cloud is tried, the answer comes
-- later, with other connections in between; and one that stays open ends.
pub mod Accounting
pub mod Exhausted
use oig_proxy.Common.{
  ℕ, zero, suc, ◌+◌, ◌-◌, Bool, true, false, not, Option, none, some, List, [], ◌∷◌, leb, Text,
  if◌then◌else◌,
}
use oig_proxy.Mode.{ModeManager, should_try_cloud, record_success, record_failure, is_offline}

-- How the connection to the cloud comes out; the task is cancelled when the server stops.
pub data Outcome : Type 0 where
  connected timed_out failed cancelled : Outcome

-- What an open connection is running: it waits for the cloud, forwards, or is served without it.
pub data Phase : Type 0 where
  connecting forwarding offline_session : Phase

-- The counters of `ProxyServer`, with the phases of its open connections.
pub record Connections : Type 0 where
  pub max_concurrent_connections : ℕ
  pub active_connection_count : ℕ
  pub box_connected : Bool
  pub box_peer : Option Text
  pub cloud_connected : Bool
  pub cloud_connects : ℕ
  pub cloud_disconnects : ℕ
  pub cloud_timeouts : ℕ
  pub cloud_errors : ℕ
  pub manager : ModeManager
  pub open_phases : List Phase

-- A connection that arrives, and the reading of the clock for the retry of the cloud.
pub record Arrival : Type 0 where
  pub peer : Text
  pub now : ℕ

-- The answer that a connecting box meets: the outcome with its message and the readings of the
-- clock, and whether `wait_closed` of the box's writer returns, or raises the error of a lost
-- connection.
pub record Attempt : Type 0 where
  pub outcome : Outcome
  pub noted_at : ℕ × ℕ
  pub reason : Text
  pub closes : Bool

unfoldable pub accept : Text → Connections → Connections
accept peer c = record c {
  active_connection_count = c.active_connection_count + 1;
  box_connected = true;
  box_peer = some peer;
}

-- What every way to the end of a connection does; the count is an integer that is not 0 here.
unfoldable pub release : Connections → Connections
release c = record c {
  active_connection_count = c.active_connection_count - 1;
  box_connected = false;
  box_peer = none;
}

unfoldable pub open_phase : Phase → Connections → Connections
open_phase p c = record c { open_phases = p ∷ c.open_phases }

-- The cloud is not reached: an offline session, or the end. If `wait_closed` raises, the handler
-- ends there.
unfoldable pub fail_connect : Attempt → Connections → Connections
unfolding record_failure is_offline open_phase release
fail_connect a c =
    let m = record_failure (some a.reason) a.noted_at.0 a.noted_at.1 c.manager in
    let c' = record c { manager = m } in
    if is_offline m then open_phase offline_session c' else if a.closes then release c' else c'

unfoldable pub connect_cloud : Attempt → Outcome → Connections → Connections
unfolding record_success open_phase fail_connect
connect_cloud a connected c = open_phase forwarding (record c {
  cloud_connects = c.cloud_connects + 1;
  cloud_connected = true;
  manager = record_success a.noted_at.0 c.manager;
})
connect_cloud a timed_out c = fail_connect a (record c { cloud_timeouts = c.cloud_timeouts + 1 })
connect_cloud a failed c = fail_connect a (record c { cloud_errors = c.cloud_errors + 1 })
connect_cloud a cancelled c = c

unfoldable pub arrive : Arrival → Connections → Connections
unfolding accept should_try_cloud open_phase
arrive a c =
    let accepted = accept a.peer c in
    if leb c.max_concurrent_connections c.active_connection_count
    then c
    else if not (should_try_cloud c.manager a.now)
    then open_phase offline_session accepted
    else open_phase connecting accepted

-- The end of an open connection, by the phase it was in; one that waits for the cloud goes on.
unfoldable pub finish : Phase → Connections → Connections
unfolding release open_phase
finish connecting c = open_phase connecting c
finish offline_session c = release c
finish forwarding c = record (release c) {
  cloud_connected = false;
  cloud_disconnects = c.cloud_disconnects + 1;
}

-- The phase at a position, and the others.
unfoldable pub take_phase : ℕ → List Phase → Option (Phase × List Phase)
take_phase n [] = none
take_phase zero (p ∷ ps) = some (p, ps)
take_phase (suc n) (p ∷ ps) = elim (take_phase n ps) [
  | none ↦ none
  | some (q, qs) ↦ some (q, p ∷ qs)
]

-- The answer for the connection at a position, if that waits for the cloud.
unfoldable pub answer : Attempt → Phase → Connections → Connections
unfolding connect_cloud open_phase
answer a connecting c = connect_cloud a a.outcome c
answer a forwarding c = open_phase forwarding c
answer a offline_session c = open_phase offline_session c

unfoldable pub attempt : ℕ → Attempt → Connections → Connections
unfolding take_phase answer
attempt n a c = elim (take_phase n c.open_phases) [
  | none ↦ c
  | some (p, ps) ↦ answer a p (record c { open_phases = ps })
]

unfoldable pub leave : ℕ → Connections → Connections
unfolding take_phase finish
leave n c = elim (take_phase n c.open_phases) [
  | none ↦ c
  | some (p, ps) ↦ finish p (record c { open_phases = ps })
]

-- What can happen next; the control and the pipes change the mode manager in their own ways.
pub data Step : Connections → Connections → Type 0 where
  arrives : {c : Connections} (a : Arrival) → Step c (arrive a c)
  answered : {c : Connections} (n : ℕ) (a : Attempt) → Step c (attempt n a c)
  mode_changed : {c : Connections} (m : ModeManager) → Step c (record c { manager = m })
  ends : {c : Connections} (n : ℕ) → Step c (leave n c)

-- What can happen, one step after the other.
pub data Reaches (c : Connections) : Connections → Type 0 where
  here : Reaches c c
  then_step : {d e : Connections} → Reaches c d → Step d e → Reaches c e
