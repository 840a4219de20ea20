-- ===== src/Telemetry/Flush.antt =====
-- telemetry/client.py: what a flush of the buffer sends, and what it leaves.
use mathlib.Core.List.{append_assoc, append-nil}
use oig_proxy.Common.{
  ℕ, suc, ◌+◌, ◌≡◌, refl, sym, ap, subst, ◌∙◌, arith, ◌⊎◌, inl, inr, true, false, Option, none,
  some, Bool, List, [], ◌∷◌, ◌++◌, map, length, Text, Bool-cases,
}
use oig_proxy.Mqtt.{Answer, is_accepted}
use oig_proxy.Telemetry.Buffer.{TelemetryBuffer, remove}
use oig_proxy.Telemetry.Payloads.{Envelope}
use oig_proxy.Telemetry.Client.{TelemetryClient, deliver, remove_sent, flush_messages}

unmoved : (n : ℕ) → n ≡ n + 0
unmoved n = omega arith

later : (n m : ℕ) → n + 1 + m ≡ n + suc m
later n m = omega arith

-- The buffer without those messages of these ids whose removal succeeds, the first removal being
-- that after the publication of this number.
abbrev pub remove_all :
    (removals : ℕ → Bool)
    → (publication : ℕ) → List ℕ
    → Option TelemetryBuffer
    → Option TelemetryBuffer
remove_all removals n [] o = o
remove_all removals n (i ∷ ids) o =
    remove_all removals (n + 1) ids
      (elim o [ none ↦ none | some b ↦ some (remove (removals n) i b) ])

module _ {M : Type 0} (answers : ℕ → Answer) (removals : ℕ → Bool) where
  -- The messages that were sent, and those that are left.
  pub record IsFlushed (messages : List (ℕ × Text × Envelope M)) (c : TelemetryClient M)
      (r : TelemetryClient M × ℕ) : Type 0 where
    pub sent : List (ℕ × Text × Envelope M)
    pub left : List (ℕ × Text × Envelope M)
    pub split : messages ≡ sent ++ left
    pub delivered :
        r.0.delivered ≡ c.delivered ++ map (λ (m : ℕ × Text × Envelope M). (m.1, m.2)) sent
    pub counted : r.1 ≡ length sent
    pub removed :
        r.0.buffer
        ≡ remove_all removals c.publications
            (map (λ (m : ℕ × Text × Envelope M). m.0) sent)
            c.buffer
    pub stopped : (left ≡ []) ⊎ (is_accepted (answers (c.publications + length sent)) ≡ false)

  IsFlushed-next :
      (id : ℕ) (topic : Text) (p : Envelope M) (messages : List (ℕ × Text × Envelope M))
      (c : TelemetryClient M) (r : TelemetryClient M × ℕ)
      → IsFlushed messages
          (remove_sent (removals c.publications) id (record c {
            publications = c.publications + 1;
            delivered = c.delivered ++ (topic, p) ∷ [];
          }))
          r
      → IsFlushed ((id, topic, p) ∷ messages) c (r.0, r.1 + 1)
  unfolding remove_sent
  IsFlushed-next id topic p messages c r f = record {
    sent = (id, topic, p) ∷ f.sent;
    left = f.left;
    split = ap (λ (ms : List (ℕ × Text × Envelope M)). (id, topic, p) ∷ ms) f.split;
    delivered =
        f.delivered
        ∙ append_assoc c.delivered ((topic, p) ∷ [])
            (map (λ (m : ℕ × Text × Envelope M). (m.1, m.2)) f.sent);
    counted = omega (arith, f.counted);
    removed = f.removed;
    stopped = elim f.stopped [
      | inl e ↦ inl e
      | inr e ↦ inr (
          subst (λ (n : ℕ). is_accepted (answers n) ≡ false) (later c.publications (length f.sent))
            e)
    ];
  }

  -- The client with the message that the broker has taken.
  abbrev pub taken : (id : ℕ) (topic : Text) → Envelope M → TelemetryClient M → TelemetryClient M
  taken id topic p c =
      remove_sent (removals c.publications) id
        (record c { publications = c.publications + 1; delivered = c.delivered ++ (topic, p) ∷ [] })

  taken_lem :
      (id : ℕ) (topic : Text) (p : Envelope M) (messages : List (ℕ × Text × Envelope M))
      (c : TelemetryClient M)
      → c.has_client ≡ true
      → is_accepted (answers c.publications) ≡ true
      → (
        (flush_messages answers removals messages (taken id topic p c)).0,
        (flush_messages answers removals messages (taken id topic p c)).1 + 1,
      )
        ≡ flush_messages answers removals ((id, topic, p) ∷ messages) c
  unfolding flush_messages deliver
  taken_lem id topic p messages c h a = ground (arith, h, a)

  refused_lem :
      (id : ℕ) (topic : Text) (p : Envelope M) (messages : List (ℕ × Text × Envelope M))
      (c : TelemetryClient M)
      → c.has_client ≡ true
      → is_accepted (answers c.publications) ≡ false
      → ◌≡◌ {A = TelemetryClient M × ℕ}
          (record c { publications = c.publications + 1 }, 0)
          (flush_messages answers removals ((id, topic, p) ∷ messages) c)
  unfolding flush_messages deliver
  refused_lem id topic p messages c h a = ground (arith, h, a)

  -- A flush of a client that has a connection sends the messages in their order, each once, until
  -- the broker does not take one. Each message that it took is removed from the buffer, unless that
  -- removal fails, in which case it stays there; nothing else is removed.
  pub flush_messages-IsFlushed :
      (messages : List (ℕ × Text × Envelope M)) (c : TelemetryClient M)
      → c.has_client ≡ true
      → IsFlushed messages c (flush_messages answers removals messages c)
  unfolding flush_messages
  flush_messages-IsFlushed [] c h = record {
    sent = [];
    left = [];
    split = refl;
    delivered = sym (append-nil c.delivered);
    counted = refl;
    removed = refl;
    stopped = inl refl;
  }
  flush_messages-IsFlushed ((id, topic, p) ∷ messages) c h =
      elim (Bool-cases (is_accepted (answers c.publications))) [
        | inl a ↦
            subst (IsFlushed ((id, topic, p) ∷ messages) c) (taken_lem id topic p messages c h a) (
              IsFlushed-next id topic p messages c
                (flush_messages answers removals messages (taken id topic p c))
                (flush_messages-IsFlushed messages (taken id topic p c) (unfold remove_sent in h)))
        | inr a ↦
            subst (IsFlushed ((id, topic, p) ∷ messages) c) (refused_lem id topic p messages c h a)
              (record {
                sent = [];
                left = (id, topic, p) ∷ messages;
                split = refl;
                delivered = sym (append-nil c.delivered);
                counted = refl;
                removed = refl;
                stopped =
                    inr (
                      subst (λ (n : ℕ). is_accepted (answers n) ≡ false) (unmoved c.publications)
                        a);
              })
      ]
