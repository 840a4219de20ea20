-- ===== src/Server/Connections/Exhausted.antt =====
-- Places that are not given back keep every box out: a box whose connection is lost while the cloud
-- does not answer.
use oig_proxy.Common.{
  ap, arith, some, ℕ, zero, suc, ◌+◌, ◌<◌, ◌≤◌, ◌≡◌, refl, sym, subst, ◌∙◌, Text, true, false, none,
  Option, List, [], ◌∷◌, leb, length, text_eq, Holds,
}
use oig_proxy.Mode.{
  ModeManager, online_text, should_try_cloud, record_failure, is_hybrid_mode, is_offline,
  force_offline_enabled,
}
use oig_proxy.Server.Connections.{
  Outcome, connected, timed_out, failed, cancelled, Phase, Connections, Arrival, Attempt, accept,
  open_phase, connecting, fail_connect, connect_cloud, arrive, take_phase, finish, answer, attempt,
  leave, Step, Reaches, arrives, answered, mode_changed, ends, here, then_step,
}

-- The cloud does not answer, or refuses.
pub data IsUnreached : Outcome → Type 0 where
  by_timeout : IsUnreached timed_out
  by_error : IsUnreached failed

-- A box that arrives, of which the server learns that the cloud is not reached and then, from the
-- error of `wait_closed`, that the box is gone.
abbrev pub IsLost : Arrival × Attempt → Type 0
IsLost p = IsUnreached p.1.outcome × (p.1.closes ≡ false)

-- The boxes arrive and are lost, one after the other.
abbrev pub lose_all : List (Arrival × Attempt) → Connections → Connections
lose_all [] c = c
lose_all ((a, t) ∷ ps) c = lose_all ps (attempt 0 t (arrive a c))

-- In online mode, no connection is open and this many are counted.
pub record IsLeaking (limit n : ℕ) (c : Connections) : Type 0 where
  pub same_limit : c.max_concurrent_connections ≡ limit
  pub counted : c.active_connection_count ≡ n
  pub none_open : c.open_phases ≡ []
  pub is_online : c.manager.configured_mode ≡ online_text
  pub is_up : c.manager.in_offline ≡ false

record_failure-online :
    (reason : Option Text) (now now' : ℕ) (m : ModeManager)
    → m.configured_mode ≡ online_text
    → record_failure reason now now' m ≡ m
unfolding record_failure is_hybrid_mode
record_failure-online reason now now' m e = rw e refl

is_offline-online :
    (m : ModeManager)
    → m.configured_mode ≡ online_text
    → m.in_offline ≡ false
    → is_offline m ≡ false
unfolding is_offline force_offline_enabled
is_offline-online m e up = rw e up

fail_connect-IsLeaking :
    (limit n : ℕ) (t : Attempt) (c : Connections)
    → t.closes ≡ false
    → IsLeaking limit n c
    → IsLeaking limit n (fail_connect t c)
unfolding fail_connect
fail_connect-IsLeaking limit n t c lost h =
    rw
      (
        record_failure-online (some t.reason) t.noted_at.0 t.noted_at.1 c.manager h.is_online,
        is_offline-online c.manager h.is_online h.is_up,
        lost,
      )
      (record {
        same_limit = h.same_limit;
        counted = h.counted;
        none_open = h.none_open;
        is_online = h.is_online;
        is_up = h.is_up;
      })

connect_cloud-IsLeaking :
    (limit n : ℕ) (t : Attempt) (o : Outcome) (c : Connections)
    → IsUnreached o
    → t.closes ≡ false
    → IsLeaking limit n c
    → IsLeaking limit n (connect_cloud t o c)
unfolding connect_cloud
connect_cloud-IsLeaking limit n t connected c u lost h = elim u [ ]
connect_cloud-IsLeaking limit n t cancelled c u lost h = elim u [ ]
connect_cloud-IsLeaking limit n t timed_out c by_timeout lost h =
    fail_connect-IsLeaking limit n t (record c { cloud_timeouts = c.cloud_timeouts + 1 }) lost
      (record {
        same_limit = h.same_limit;
        counted = h.counted;
        none_open = h.none_open;
        is_online = h.is_online;
        is_up = h.is_up;
      })
connect_cloud-IsLeaking limit n t failed c by_error lost h =
    fail_connect-IsLeaking limit n t (record c { cloud_errors = c.cloud_errors + 1 }) lost
      (record {
        same_limit = h.same_limit;
        counted = h.counted;
        none_open = h.none_open;
        is_online = h.is_online;
        is_up = h.is_up;
      })

should_try_cloud-online :
    (m : ModeManager) (now : ℕ) → m.configured_mode ≡ online_text → should_try_cloud m now ≡ true
unfolding should_try_cloud
should_try_cloud-online m now e = rw e refl

-- A box that finds a place waits for the cloud.
arrive-waits :
    (limit n : ℕ) (a : Arrival) (c : Connections)
    → n < limit
    → IsLeaking limit n c
    → arrive a c ≡ open_phase connecting (accept a.peer c)
unfolding arrive
arrive-waits limit n a c lt h =
    let free : leb c.max_concurrent_connections c.active_connection_count ≡ false =
      ground (arith, lt, h.same_limit, h.counted) in
    rw (free, should_try_cloud-online c.manager a.now h.is_online) refl

-- The first of the open connections meets its answer.
attempt-first :
    (t : Attempt) (c : Connections)
    → attempt 0 t (open_phase connecting c) ≡ connect_cloud t t.outcome c
unfolding attempt open_phase take_phase answer
attempt-first t c = refl

-- Each box that is lost takes one place more.
lose-IsLeaking :
    (limit n : ℕ) (p : Arrival × Attempt) (c : Connections)
    → n < limit
    → IsLost p
    → IsLeaking limit n c
    → IsLeaking limit (n + 1) (attempt 0 p.1 (arrive p.0 c))
unfolding accept
lose-IsLeaking limit n (a, t) c lt (unreached, lost) h =
    let e = ap (attempt 0 t) (arrive-waits limit n a c lt h) ∙ attempt-first t (accept a.peer c) in
    subst (IsLeaking limit (n + 1)) (sym e) (
      connect_cloud-IsLeaking limit (n + 1) t t.outcome (accept a.peer c) unreached lost (record {
        same_limit = h.same_limit;
        counted = ap (λ k. k + 1) h.counted;
        none_open = h.none_open;
        is_online = h.is_online;
        is_up = h.is_up;
      }))

lose_all-IsLeaking :
    (limit n : ℕ) (ps : List (Arrival × Attempt)) (c : Connections)
    → n + length ps ≤ limit
    → Holds IsLost ps
    → IsLeaking limit n c
    → IsLeaking limit (n + length ps) (lose_all ps c)
lose_all-IsLeaking limit n [] c le lost h = subst (λ k. IsLeaking limit k c) (omega arith) h
lose_all-IsLeaking limit n (p ∷ ps) c le lost h =
    subst (λ k. IsLeaking limit k (lose_all (p ∷ ps) c)) (omega arith)
      (lose_all-IsLeaking limit (n + 1) ps (attempt 0 p.1 (arrive p.0 c)) (omega (arith, le)) lost.1
        (lose-IsLeaking limit n p c (omega (arith, le)) lost.0 h))

-- No connection is open, and yet the limit is reached.
pub record IsExhausted (limit : ℕ) (c : Connections) : Type 0 where
  pub same_limit : c.max_concurrent_connections ≡ limit
  pub counted : c.active_connection_count ≡ limit
  pub none_open : c.open_phases ≡ []

take_phase-empty : (n : ℕ) (ps : List Phase) → ps ≡ [] → take_phase n ps ≡ none
unfolding take_phase
take_phase-empty zero ps e = rw e refl
take_phase-empty (suc n) ps e = rw e refl

-- With no connection open there is none to do something with.
no_phase :
    (n : ℕ) (f : Phase → Connections → Connections) (c : Connections)
    → c.open_phases ≡ []
    → (elim (take_phase n c.open_phases) as (λ _. Connections) [
      | none ↦ c
      | some (p, ps) ↦ f p (record c { open_phases = ps })
    ])
      ≡ c
no_phase n f c e = rw (take_phase-empty n c.open_phases e) refl

arrive-exhausted :
    (limit : ℕ) (a : Arrival) (c : Connections) → IsExhausted limit c → arrive a c ≡ c
unfolding arrive
arrive-exhausted limit a c h =
    let full : leb c.max_concurrent_connections c.active_connection_count ≡ true =
      ground (arith, h.same_limit, h.counted) in
    rw full refl

Step-IsExhausted :
    {c d : Connections} (limit : ℕ) → IsExhausted limit c → Step c d → IsExhausted limit d
unfolding attempt leave
Step-IsExhausted {c} limit h (arrives a) =
    subst (IsExhausted limit) (sym (arrive-exhausted limit a c h)) h
Step-IsExhausted {c} limit h (answered n t) =
    subst (IsExhausted limit) (sym (no_phase n (answer t) c h.none_open)) h
Step-IsExhausted {c} limit h (mode_changed m) = record {
  same_limit = h.same_limit;
  counted = h.counted;
  none_open = h.none_open;
}
Step-IsExhausted {c} limit h (ends n) =
    subst (IsExhausted limit) (sym (no_phase n finish c h.none_open)) h

Reaches-IsExhausted :
    {c d : Connections} (limit : ℕ) → IsExhausted limit c → Reaches c d → IsExhausted limit d
Reaches-IsExhausted limit h here = h
Reaches-IsExhausted limit h (then_step r s) =
    Step-IsExhausted limit (Reaches-IsExhausted limit h r) s

lose_all-Reaches :
    (ps : List (Arrival × Attempt)) (b c : Connections) → Reaches b c → Reaches b (lose_all ps c)
lose_all-Reaches [] b c r = r
lose_all-Reaches ((a, t) ∷ ps) b c r =
    lose_all-Reaches ps b _ (then_step (then_step r (arrives a)) (answered 0 t))

-- A server in online mode, not offline, that counts no connection and has none open: when as many
-- boxes as the limit come one after the other, for each of which the cloud is not reached and
-- `wait_closed` raises, the server gets into a state from which on, whatever happens next, changes
-- of the mode included, the next box that comes is rejected, although no connection is open.
pub lose_all-rejects :
    (limit : ℕ) (ps : List (Arrival × Attempt)) (c d : Connections) (a : Arrival)
    → IsLeaking limit 0 c
    → Holds IsLost ps
    → length ps ≡ limit
    → Reaches (lose_all ps c) d
    → Reaches c (lose_all ps c) × (arrive a d ≡ d) × (d.open_phases ≡ [])
lose_all-rejects limit ps c d a h lost many r =
    let leaked = lose_all-IsLeaking limit 0 ps c (omega (arith, many)) lost h in
    let e =
      Reaches-IsExhausted limit
        (record {
          same_limit = leaked.same_limit;
          counted = omega (arith, leaked.counted, many);
          none_open = leaked.none_open;
        })
        r in
    (lose_all-Reaches ps c c here, arrive-exhausted limit a d e, e.none_open)
