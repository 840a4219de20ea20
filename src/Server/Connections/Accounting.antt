-- ===== src/Server/Connections/Accounting.antt =====
-- The count of the active connections.
use oig_proxy.Common.{
  ℕ, zero, suc, ◌+◌, ◌≤◌, ◌≡◌, inl, inr, arith, false, not, none, some, List, [], ◌∷◌, leb, length,
  Text, Bool-cases, Option-cases,
}
use oig_proxy.Common.Keeps.{keep-if, keep-option_known}
use oig_proxy.Mode.{should_try_cloud, record_failure, is_offline}
use oig_proxy.Server.Connections.{
  Outcome, connected, timed_out, failed, cancelled, Phase, connecting, forwarding, offline_session,
  Connections, Arrival, Attempt, accept, release, open_phase, fail_connect, connect_cloud, arrive,
  finish, take_phase, answer, attempt, leave, Reaches, arrives, answered, mode_changed, ends, here,
  then_step,
}

-- The open connections are counted, and the count keeps within the limit.
pub record IsCounted (limit : ℕ) (c : Connections) : Type 0 where
  pub same_limit : c.max_concurrent_connections ≡ limit
  pub counted : length c.open_phases ≤ c.active_connection_count
  pub limited : c.active_connection_count ≤ limit

-- A connection is accepted and is not open yet.
record IsPending (limit : ℕ) (c : Connections) : Type 0 where
  same_limit : c.max_concurrent_connections ≡ limit
  counted : length c.open_phases + 1 ≤ c.active_connection_count
  limited : c.active_connection_count ≤ limit

open_phase-IsCounted :
    (limit : ℕ) (p : Phase) (c : Connections) → IsPending limit c → IsCounted limit (open_phase p c)
unfolding open_phase
open_phase-IsCounted limit p c h = record {
  same_limit = h.same_limit;
  counted = ground (arith, h.counted);
  limited = h.limited;
}

release-IsCounted : (limit : ℕ) (c : Connections) → IsPending limit c → IsCounted limit (release c)
unfolding release
release-IsCounted limit c h = record {
  same_limit = h.same_limit;
  counted = omega (arith, h.counted);
  limited = omega (arith, h.limited);
}

-- A connection that ends without giving its place back.
pending-IsCounted : (limit : ℕ) (c : Connections) → IsPending limit c → IsCounted limit c
pending-IsCounted limit c h = record {
  same_limit = h.same_limit;
  counted = omega (arith, h.counted);
  limited = h.limited;
}

fail_connect-IsCounted :
    (limit : ℕ) (a : Attempt) (c : Connections)
    → IsPending limit c
    → IsCounted limit (fail_connect a c)
unfolding fail_connect
fail_connect-IsCounted limit a c h =
    let m = record_failure (some a.reason) a.noted_at.0 a.noted_at.1 c.manager in
    let c' = record c { manager = m } in
    let h' : IsPending limit c' = record {
      same_limit = h.same_limit;
      counted = h.counted;
      limited = h.limited;
    } in
    keep-if (λ (x : Connections). IsCounted limit x) (is_offline m)
      (open_phase-IsCounted limit offline_session c' h')
      (keep-if (λ (x : Connections). IsCounted limit x) a.closes (release-IsCounted limit c' h')
        (pending-IsCounted limit c' h'))

connect_cloud-IsCounted :
    (limit : ℕ) (a : Attempt) (o : Outcome) (c : Connections)
    → IsPending limit c
    → IsCounted limit (connect_cloud a o c)
unfolding connect_cloud
connect_cloud-IsCounted limit a connected c h =
    open_phase-IsCounted limit forwarding _
      (record { same_limit = h.same_limit; counted = h.counted; limited = h.limited })
connect_cloud-IsCounted limit a timed_out c h =
    fail_connect-IsCounted limit a (record c { cloud_timeouts = c.cloud_timeouts + 1 })
      (record { same_limit = h.same_limit; counted = h.counted; limited = h.limited })
connect_cloud-IsCounted limit a failed c h =
    fail_connect-IsCounted limit a (record c { cloud_errors = c.cloud_errors + 1 })
      (record { same_limit = h.same_limit; counted = h.counted; limited = h.limited })
connect_cloud-IsCounted limit a cancelled c h = pending-IsCounted limit c h

accept-IsPending :
    (limit : ℕ) (peer : Text) (c : Connections)
    → IsCounted limit c
    → leb c.max_concurrent_connections c.active_connection_count ≡ false
    → IsPending limit (accept peer c)
unfolding accept
accept-IsPending limit peer c h free = record {
  same_limit = h.same_limit;
  counted = omega (arith, h.counted);
  limited = ground (arith, free, h.same_limit);
}

arrive-IsCounted :
    (limit : ℕ) (a : Arrival) (c : Connections) → IsCounted limit c → IsCounted limit (arrive a c)
unfolding arrive
arrive-IsCounted limit a c h =
    elim (Bool-cases (leb c.max_concurrent_connections c.active_connection_count)) [
      | inl full ↦ rw full h
      | inr free ↦
          let p = accept-IsPending limit a.peer c h free in
          rw free (
            keep-if (λ (x : Connections). IsCounted limit x)
              (not (should_try_cloud c.manager a.now))
              (open_phase-IsCounted limit offline_session _ p)
              (open_phase-IsCounted limit connecting _ p))
    ]

-- what is left of the phases when one is taken
take_phase-length :
    (n : ℕ) (ps : List Phase) (p : Phase) (qs : List Phase)
    → take_phase n ps ≡ some (p, qs)
    → length ps ≡ length qs + 1
unfolding take_phase
take_phase-length n [] p qs e = absurd (ground arith)
take_phase-length zero (x ∷ xs) p qs e = ground (arith, e)
take_phase-length (suc n) (x ∷ xs) p qs e = elim (Option-cases (take_phase n xs)) [
  | inl f ↦ absurd (ground (arith, e, f))
  | inr ((y, ys), f) ↦ ground (arith, e, f, take_phase-length n xs y ys f)
]

finish-IsCounted :
    (limit : ℕ) (p : Phase) (c : Connections) → IsPending limit c → IsCounted limit (finish p c)
unfolding finish release
finish-IsCounted limit connecting c h = open_phase-IsCounted limit connecting c h
finish-IsCounted limit offline_session c h = release-IsCounted limit c h
finish-IsCounted limit forwarding c h = record {
  same_limit = h.same_limit;
  counted = omega (arith, h.counted);
  limited = omega (arith, h.limited);
}

answer-IsCounted :
    (limit : ℕ) (a : Attempt) (p : Phase) (c : Connections)
    → IsPending limit c
    → IsCounted limit (answer a p c)
unfolding answer
answer-IsCounted limit a connecting c h = connect_cloud-IsCounted limit a a.outcome c h
answer-IsCounted limit a forwarding c h = open_phase-IsCounted limit forwarding c h
answer-IsCounted limit a offline_session c h = open_phase-IsCounted limit offline_session c h

-- What is done with the connection at a position leaves the counts right, if it does where the
-- connection is counted and not among the open ones.
at_phase-IsCounted :
    (limit : ℕ) (n : ℕ) (f : Phase → Connections → Connections) (c : Connections)
    → ((p : Phase) (d : Connections) → IsPending limit d → IsCounted limit (f p d))
    → IsCounted limit c
    → IsCounted limit (elim (take_phase n c.open_phases) as (λ _. Connections) [
      | none ↦ c
      | some (p, ps) ↦ f p (record c { open_phases = ps })
    ])
at_phase-IsCounted limit n f c keeps h =
    keep-option_known (λ (x : Connections). IsCounted limit x) (take_phase n c.open_phases) (λ e. h)
      λ q e.
        keeps q.0 (record c { open_phases = q.1 })
          (record {
            same_limit = h.same_limit;
            counted = omega (arith, take_phase-length n c.open_phases q.0 q.1 e, h.counted);
            limited = h.limited;
          })

leave-IsCounted :
    (limit : ℕ) (n : ℕ) (c : Connections) → IsCounted limit c → IsCounted limit (leave n c)
unfolding leave
leave-IsCounted limit n c h = at_phase-IsCounted limit n finish c (finish-IsCounted limit) h

attempt-IsCounted :
    (limit : ℕ) (n : ℕ) (a : Attempt) (c : Connections)
    → IsCounted limit c
    → IsCounted limit (attempt n a c)
unfolding attempt
attempt-IsCounted limit n a c h =
    at_phase-IsCounted limit n (answer a) c (answer-IsCounted limit a) h

-- In whatever order boxes arrive, the answers of the cloud come, connections end and the mode
-- changes, the open connections, those that wait for the cloud included, are at most as many as the
-- active ones that are counted, and those at most as many as the limit.
pub Reaches-IsCounted :
    (limit : ℕ) (c d : Connections) → IsCounted limit c → Reaches c d → IsCounted limit d
Reaches-IsCounted limit c d h here = h
Reaches-IsCounted limit c d h (then_step r (arrives a)) =
    arrive-IsCounted limit a _ (Reaches-IsCounted limit c _ h r)
Reaches-IsCounted limit c d h (then_step r (answered n a)) =
    attempt-IsCounted limit n a _ (Reaches-IsCounted limit c _ h r)
Reaches-IsCounted limit c d h (then_step r (mode_changed m)) =
    let before = Reaches-IsCounted limit c _ h r in
    record { same_limit = before.same_limit; counted = before.counted; limited = before.limited }
Reaches-IsCounted limit c d h (then_step r (ends n)) =
    leave-IsCounted limit n _ (Reaches-IsCounted limit c _ h r)
