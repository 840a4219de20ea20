-- ===== src/Tests/Modes.antt =====
-- The mode manager at work.
use oig_proxy.Common.{
  ◌+◌, ◌≡◌, refl, true, false, none, some, List, [], ◌∷◌, codes, arith, length, leb, ◌==◌, text_eq,
}
use oig_proxy.Mode.{
  ModeManager, online_text, hybrid_text, init, record_failure, Event, failure, success, apply, step,
  run,
}
use oig_proxy.Mode.Invariant.{Consistent, init-Consistent, run-Consistent}
use oig_proxy.Mode.Window.{Alternates, run-failures}

abbrev fresh : ModeManager
fresh = init hybrid_text 3 60 true

abbrev failures : List Event
failures = failure none 5 5 ∷ failure (some (codes "timeout")) 10 11 ∷ failure none 15 16 ∷ []

abbrev ups_and_downs : List Event
ups_and_downs =
    failure none 5 5
    ∷ failure none 10 11
    ∷ failure none 15 16
    ∷ success 90
    ∷ failure none 95 95
    ∷ []

fresh-Consistent : Consistent fresh
fresh-Consistent = init-Consistent hybrid_text 3 60 true (omega arith)

run-Consistent_example : Consistent (run fresh (apply (codes " Online ") ∷ ups_and_downs))
run-Consistent_example =
    run-Consistent fresh (apply (codes " Online ") ∷ ups_and_downs) fresh-Consistent

fresh-hybrid : fresh.configured_mode ≡ hybrid_text
unfolding init
fresh-hybrid = refl

run-failures_example :
    (run fresh failures).in_offline ≡ leb fresh.fail_threshold (fresh.fail_count + length failures)
run-failures_example = run-failures fresh failures fresh-hybrid fresh-Consistent tt

abbrev failed_twice : ModeManager
failed_twice = run fresh (failure none 5 5 ∷ failure none 10 11 ∷ [])

failed_twice-hybrid : failed_twice.configured_mode ≡ hybrid_text
unfolding run init step record_failure
failed_twice-hybrid = refl

goes_offline : (record_failure none 15 16 failed_twice).in_offline ≡ true
unfolding run init step record_failure
goes_offline = refl

failures-hybrid : (run fresh failures).configured_mode ≡ hybrid_text
unfolding run init step record_failure
failures-hybrid = refl

abbrev pinned : ModeManager
pinned = init online_text 3 60 true

pinned-online : (pinned.configured_mode == hybrid_text) ≡ false
unfolding init
pinned-online = refl

fresh-Alternates : (fresh.has_callback ≡ true) × Alternates fresh.in_offline fresh.transitions
unfolding init
fresh-Alternates = (refl, refl)
