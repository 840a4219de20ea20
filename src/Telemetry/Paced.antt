-- ===== src/Telemetry/Paced.antt =====
-- telemetry/client.py: how often the client tries to connect.
use oig_proxy.Common.{
  ℕ, zero, suc, ◌+◌, ◌*◌, ◌≤◌, ◌≡◌, refl, arith, inl, inr, Bool, true, false, not, ◌&&◌, List, [],
  ◌∷◌, ltb, Bool-cases, Option,
}
use oig_proxy.Common.Keeps.{keep-if, keep-option}
use oig_proxy.Telemetry.Buffer.{TelemetryBuffer}
use oig_proxy.Telemetry.Client.{
  TelemetryClient, Created, comes_up, times_out, fails, Redial, is_alive, reconnects, raises,
  first_backoff, last_backoff, min_of, on_connect, on_disconnect, cleanup_client, create_client,
  redial, ensure_connected, disconnect, LinkStep, connect_answered, connection_lost,
  connection_wanted, disconnected, LinkReaches, here, then_step,
}

-- Of these readings of the clock, the last one first, each lies five seconds or more behind the
-- one before it.
abbrev pub IsSpaced : List ℕ → Type 0
IsSpaced [] = Unit {0}
IsSpaced (t ∷ []) = Unit {0}
IsSpaced (t ∷ s ∷ ts) = (s + first_backoff ≤ t) × IsSpaced (s ∷ ts)

-- The last attempt is the one that the client remembers.
abbrev Remembers : List ℕ → ℕ → Type 0
Remembers [] last = Unit {0}
Remembers (t ∷ ts) last = t ≡ last

pub record IsPaced {M : Type 0} (c : TelemetryClient M) : Type 0 where
  pub at_least : first_backoff ≤ c.connect_backoff
  pub at_most : c.connect_backoff ≤ last_backoff
  pub remembered : Remembers c.attempts c.last_connect_attempt
  pub spaced : IsSpaced c.attempts

attempt-IsSpaced :
    (now last backoff : ℕ) (ts : List ℕ)
    → first_backoff ≤ backoff
    → ltb now (last + backoff) ≡ false
    → Remembers ts last
    → IsSpaced ts
    → IsSpaced (now ∷ ts)
attempt-IsSpaced now last backoff [] b l r s = tt
attempt-IsSpaced now last backoff (t ∷ ts) b l r s = (ground (arith, l, r), s)

doubled :
    (b : ℕ)
    → first_backoff ≤ b
    → b ≤ last_backoff
    → (first_backoff ≤ min_of (b * 2) last_backoff) × (min_of (b * 2) last_backoff ≤ last_backoff)
doubled b l m = ground arith

module _ {M : Type 0} where
  cleanup_client-IsPaced : (c : TelemetryClient M) → IsPaced c → IsPaced (cleanup_client c)
  unfolding cleanup_client
  cleanup_client-IsPaced c v =
      keep-if (λ (x : TelemetryClient M). IsPaced x) (not c.has_client) v
        (record {
          at_least = v.at_least;
          at_most = v.at_most;
          remembered = v.remembered;
          spaced = v.spaced;
        })

  backed_off-IsPaced :
      (c : TelemetryClient M)
      → IsPaced c
      → IsPaced (record c { connect_backoff = min_of (c.connect_backoff * 2) last_backoff })
  backed_off-IsPaced c v = record {
    at_least = (doubled c.connect_backoff v.at_least v.at_most).0;
    at_most = (doubled c.connect_backoff v.at_least v.at_most).1;
    remembered = v.remembered;
    spaced = v.spaced;
  }

  flagged-IsPaced :
      (a b : Bool) (c : TelemetryClient M)
      → IsPaced c
      → IsPaced (record c { has_client = a; connected = b })
  flagged-IsPaced a b c v = record {
    at_least = v.at_least;
    at_most = v.at_most;
    remembered = v.remembered;
    spaced = v.spaced;
  }

  create_client-IsPaced :
      (created : Created) (c : TelemetryClient M) → IsPaced c → IsPaced (create_client created c).0
  unfolding create_client on_connect
  create_client-IsPaced comes_up c v = record {
    at_least = omega arith;
    at_most = omega arith;
    remembered = v.remembered;
    spaced = v.spaced;
  }
  create_client-IsPaced times_out c v =
      backed_off-IsPaced _ (cleanup_client-IsPaced _ (flagged-IsPaced true c.connected c v))
  create_client-IsPaced fails c v =
      backed_off-IsPaced _ (cleanup_client-IsPaced _ (flagged-IsPaced true c.connected c v))

  redial-IsPaced :
      (answer : Redial) (created : Created) (c : TelemetryClient M)
      → IsPaced c
      → IsPaced (redial answer created c).0
  unfolding redial
  redial-IsPaced is_alive created c v = flagged-IsPaced c.has_client true c v
  redial-IsPaced reconnects created c v = v
  redial-IsPaced raises created c v = create_client-IsPaced created _ (cleanup_client-IsPaced c v)

  attempted-IsPaced :
      (now : ℕ) (c : TelemetryClient M)
      → IsPaced c
      → ltb now (c.last_connect_attempt + c.connect_backoff) ≡ false
      → IsPaced (record c { last_connect_attempt = now; attempts = now ∷ c.attempts })
  attempted-IsPaced now c v l = record {
    at_least = v.at_least;
    at_most = v.at_most;
    remembered = refl;
    spaced =
        attempt-IsSpaced now c.last_connect_attempt c.connect_backoff c.attempts v.at_least l
          v.remembered v.spaced;
  }

  ensure_connected-IsPaced :
      (now : ℕ) (answer : Redial) (created : Created) (c : TelemetryClient M)
      → IsPaced c
      → IsPaced (ensure_connected now answer created c).0
  unfolding ensure_connected
  ensure_connected-IsPaced now answer created c v =
      keep-if (λ (x : TelemetryClient M × Bool). IsPaced x.0) (c.connected && c.has_client) v
        (elim (Bool-cases (ltb now (c.last_connect_attempt + c.connect_backoff))) [
          | inl e ↦ rw e v
          | inr e ↦ rw e (
              keep-if (λ (x : TelemetryClient M × Bool). IsPaced x.0) c.has_client
                (redial-IsPaced answer created _ (attempted-IsPaced now c v e))
                (create_client-IsPaced created _ (attempted-IsPaced now c v e)))
        ])

  buffered-IsPaced :
      (b : Option TelemetryBuffer) (c : TelemetryClient M)
      → IsPaced c
      → IsPaced (record c { buffer = b })
  buffered-IsPaced b c v = record {
    at_least = v.at_least;
    at_most = v.at_most;
    remembered = v.remembered;
    spaced = v.spaced;
  }

  disconnect-IsPaced :
      (closed : Bool) (c : TelemetryClient M) → IsPaced c → IsPaced (disconnect closed c)
  unfolding disconnect
  disconnect-IsPaced closed c v =
      keep-option (λ (x : TelemetryClient M). IsPaced x) (cleanup_client c).buffer
        (cleanup_client-IsPaced c v) (λ b. buffered-IsPaced _ _ (cleanup_client-IsPaced c v))

  on_connect-IsPaced : (rc : ℕ) (c : TelemetryClient M) → IsPaced c → IsPaced (on_connect rc c)
  unfolding on_connect
  on_connect-IsPaced zero c v = record {
    at_least = omega arith;
    at_most = omega arith;
    remembered = v.remembered;
    spaced = v.spaced;
  }
  on_connect-IsPaced (suc rc) c v = v

  LinkStep-IsPaced : {c d : TelemetryClient M} → LinkStep c d → IsPaced c → IsPaced d
  LinkStep-IsPaced (connect_answered rc c) v = on_connect-IsPaced rc c v
  LinkStep-IsPaced (connection_lost c) v =
      unfold on_disconnect in flagged-IsPaced c.has_client false c v
  LinkStep-IsPaced (connection_wanted now answer created c) v =
      ensure_connected-IsPaced now answer created c v
  LinkStep-IsPaced (disconnected closed c) v = disconnect-IsPaced closed c v

  LinkReaches-steps-IsPaced : {c d : TelemetryClient M} → LinkReaches c d → IsPaced c → IsPaced d
  LinkReaches-steps-IsPaced (here c) v = v
  LinkReaches-steps-IsPaced (then_step r s) v = LinkStep-IsPaced s (LinkReaches-steps-IsPaced r v)

  -- From a client that has not tried to connect, with the first backoff: in whatever order it is
  -- asked for a connection, gets and loses one, the backoff stays between five seconds and five
  -- minutes, and each attempt to connect comes five seconds or more after the one before.
  pub LinkReaches-IsPaced :
      (c d : TelemetryClient M)
      → c.connect_backoff ≡ first_backoff
      → c.attempts ≡ []
      → LinkReaches c d
      → IsPaced d
  LinkReaches-IsPaced c d b a r = LinkReaches-steps-IsPaced r (record {
    at_least = omega (arith, b);
    at_most = omega (arith, b);
    remembered = rw a tt;
    spaced = rw a tt;
  })
