-- ===== src/Mode/Window.antt =====
-- When the proxy goes offline, when it probes the cloud again, and when it comes back.
use oig_proxy.Common.{
  ℕ, ◌+◌, ◌≡◌, refl, Bool, true, false, not, ◌||◌, Option, none, List, [], ◌∷◌, arith, leb, length,
  Text, ◌==◌, text_eq, text_beq_iff, strip, lower, if◌then◌else◌,
}
use oig_proxy.Mode.{
  ModeManager, online, online_text, hybrid_text, offline_text, should_try_cloud, record_failure,
  record_success, is_offline, apply_configured_mode, Transition, Event, failure, success, apply,
  run, step,
}
use oig_proxy.Mode.Invariant.{Consistent, step-Consistent}

-- Every event is a failed attempt to reach the cloud.
abbrev pub AllFail : List Event → Type 0
AllFail [] = Unit
AllFail (failure r t t' ∷ es) = AllFail es
AllFail (success t ∷ es) = ⊥
AllFail (apply c ∷ es) = ⊥

failure-keeps :
    (r : Option Text) (t t' : ℕ) (m : ModeManager)
    → m.configured_mode ≡ hybrid_text
    → let m' = step m (failure r t t') in
      (m'.configured_mode ≡ hybrid_text)
      × (m'.fail_count ≡ m.fail_count + 1)
      × (m'.fail_threshold ≡ m.fail_threshold)
unfolding step record_failure
failure-keeps r t t' m h = ground (arith, text_beq_iff m.configured_mode hybrid_text)

-- In hybrid mode, after any run of failures the manager is offline exactly when the failures
-- since the last success, those of the run included, have reached the threshold.
pub run-failures :
    (m : ModeManager) (es : List Event)
    → m.configured_mode ≡ hybrid_text
    → Consistent m
    → AllFail es
    → (run m es).in_offline ≡ leb m.fail_threshold (m.fail_count + length es)
unfolding run
run-failures m [] h c a = ground (arith, c.hybrid_counts h)
run-failures m (failure r t t' ∷ es) h c a =
    let (same, more, limit) = failure-keeps r t t' m h in
    let m' = step m (failure r t t') in
    ground
      (arith, run-failures m' es same (step-Consistent m (failure r t t') c) a, same, more, limit)
run-failures m (success t ∷ es) h c a = absurd a
run-failures m (apply x ∷ es) h c a = absurd a

-- In hybrid mode a failure that leaves the manager offline closes the way to the cloud for
-- exactly `retry_interval` from that failure, from the first reading of the clock if it was a
-- failed probe and from the second if it made the switch.
failure-window :
    (r : Option Text) (t t' : ℕ) (m : ModeManager) (now : ℕ)
    → m.configured_mode ≡ hybrid_text
    → (record_failure r t t' m).in_offline ≡ true
    → should_try_cloud (record_failure r t t' m) now
      ≡ leb ((if m.in_offline then t else t') + m.retry_interval) now
unfolding record_failure should_try_cloud
failure-window r t t' m now h off = ground (
  arith,
  text_beq_iff m.configured_mode hybrid_text,
  text_beq_iff m.configured_mode online_text,
  text_beq_iff m.configured_mode offline_text,
)

-- In hybrid mode one success ends the outage: the manager is online, its count of failures is 0,
-- the cloud may be tried at any time, and a transition to online is reported exactly when the
-- manager was offline and a callback is set.
success-recovers :
    (t now : ℕ) (m : ModeManager)
    → m.configured_mode ≡ hybrid_text
    → Consistent m
    → let m' = record_success t m in
      (is_offline m' ≡ false)
      × (m'.runtime_mode ≡ online)
      × (m'.fail_count ≡ 0)
      × (should_try_cloud m' now ≡ true)
      × (m'.transitions ≡ (
          if m.in_offline
          then (if m.has_callback
              then record { state = online_text; started_at = t; reason = none } ∷ m.transitions
              else m.transitions)
          else m.transitions))
unfolding record_success should_try_cloud is_offline
success-recovers t now m h c = ground (
  arith,
  text_beq_iff m.configured_mode hybrid_text,
  text_beq_iff m.configured_mode online_text,
  text_beq_iff m.configured_mode offline_text,
  c.runtime_flag,
)

-- Failures and successes, with no change of the configuration.
abbrev pub NoApply : List Event → Type 0
NoApply [] = Unit
NoApply (failure r t t' ∷ es) = NoApply es
NoApply (success t ∷ es) = NoApply es
NoApply (apply c ∷ es) = ⊥

-- Outside hybrid mode failures and successes change nothing at all: the modes online and
-- offline are left by a change of the configuration only.
run-pinned :
    (m : ModeManager) (es : List Event)
    → (m.configured_mode == hybrid_text) ≡ false
    → NoApply es
    → run m es ≡ m
unfolding run step record_failure record_success
run-pinned m [] h a = refl
run-pinned m (failure r t t' ∷ es) h a = ground (arith, run-pinned m es h a)
run-pinned m (success t ∷ es) h a = ground (arith, run-pinned m es h a)
run-pinned m (apply c ∷ es) h a = absurd a

-- The reported states, the last first, alternate and began with offline.
abbrev pub Alternates : Bool → List Transition → Type 0
Alternates now_offline [] = now_offline ≡ false
Alternates true (t ∷ ts) = (t.state ≡ offline_text) × Alternates false ts
Alternates false (t ∷ ts) = (t.state ≡ online_text) × Alternates true ts

step-Alternates :
    (m : ModeManager) (e : Event)
    → NoApply (e ∷ [])
    → m.has_callback ≡ true
    → Alternates m.in_offline m.transitions
    → ((step m e).has_callback ≡ true) × Alternates (step m e).in_offline (step m e).transitions
unfolding step record_failure record_success
step-Alternates m (failure r t t') a c h = ground arith
step-Alternates m (success t) a c h = ground arith
step-Alternates m (apply x) a c h = absurd a

-- With the callback set, failures and successes in any order report offline and online in
-- strict alternation, and the last report tells the state that the manager is in.
run-Alternates :
    (m : ModeManager) (es : List Event)
    → NoApply es
    → m.has_callback ≡ true
    → Alternates m.in_offline m.transitions
    → Alternates (run m es).in_offline (run m es).transitions
unfolding run
run-Alternates m [] a c h = h
run-Alternates m (failure r t t' ∷ es) a c h =
    let (c', h') = step-Alternates m (failure r t t') tt c h in
    run-Alternates (step m (failure r t t')) es a c' h'
run-Alternates m (success t ∷ es) a c h =
    let (c', h') = step-Alternates m (success t) tt c h in
    run-Alternates (step m (success t)) es a c' h'
run-Alternates m (apply x ∷ es) a c h = absurd a

-- A request for a mode is accepted exactly when its text, stripped and lowered, names one of the
-- three modes; a request that is refused changes nothing. One that is accepted sets the mode: the
-- manager is offline then exactly for the mode offline, and in the other two it may try the cloud
-- at once.
apply_configured_mode_lem :
    (c : Text) (m : ModeManager) (now : ℕ)
    → let mode = lower (strip c) in
      let (m', accepted) = apply_configured_mode c m in
      (accepted ≡ (mode == online_text || (mode == hybrid_text || mode == offline_text)))
      × (m' ≡ (if accepted then m' else m))
      × (m'.configured_mode ≡ (if accepted then mode else m.configured_mode))
      × (is_offline m' ≡ (if accepted then mode == offline_text else is_offline m))
      × (should_try_cloud m' now
          ≡ (if accepted then not (mode == offline_text) else should_try_cloud m now))
unfolding apply_configured_mode is_offline should_try_cloud
apply_configured_mode_lem c m now =
    let mode = lower (strip c) in
    ground (
      arith,
      text_beq_iff mode hybrid_text,
      text_beq_iff mode online_text,
      text_beq_iff mode offline_text,
    )
