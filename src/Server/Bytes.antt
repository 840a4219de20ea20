-- ===== src/Server/Bytes.antt =====
-- While no setting waits for the box and the cloud takes what is written to it: which bytes of the
-- box the cloud gets.
use mathlib.Core.List.{flatten, append-nil}
use oig_proxy.Common.{
  ℕ, ◌≡◌, ◌∙◌, refl, sym, ap, arith, Bool, true, false, Option, List, [], ◌∷◌, ◌++◌, length, Text,
  Holds,
}
use oig_proxy.Common.Decimal.{ℤ}
use oig_proxy.Values.{Floats}
use oig_proxy.Audit.Records.{Draw}
use oig_proxy.Frame.Crc.{Bytes}
use oig_proxy.Frame.Extract.{extract_frames}
use oig_proxy.Frame.Stream.{extract_frames_lem}
use oig_proxy.Server.State.{ProxyServer}
use oig_proxy.Server.Box.{
  Read, send_to_cloud, forward_box, handle_box_frames, box_turn, pipe_box_to_cloud,
}
use oig_proxy.Server.Forwarding.{IsQuiet, handle_box_frames-quiet}

-- the loop that takes frames from a buffer, with fuel for all of it
abbrev pub cut : Bytes → List Bytes × Bytes
cut buf = extract_frames (length buf) buf

-- what a turn writes to the cloud: the frames, or without any the data that was read
abbrev pub payload : List Bytes → Bytes → Bytes
payload [] read_bytes = read_bytes
payload (f ∷ fs) read_bytes = flatten (f ∷ fs)

-- the reads, the last first, in front of what was sent before
abbrev pub sent_before : List Read → List Bytes → List Bytes
sent_before [] l = l
sent_before (i ∷ is) l = sent_before is (i.data_bytes ∷ l)

-- The read consists of whole frames, and the cloud takes them.
pub record IsWhole (i : Read) : Type 0 where
  pub none_left : (cut i.data_bytes).1 ≡ []
  pub sent : i.cloud_sent ≡ true

payload-cut :
    (frames : List Bytes) (rest read_bytes : Bytes)
    → flatten frames ++ rest ≡ read_bytes
    → rest ≡ []
    → payload frames read_bytes ≡ read_bytes
payload-cut [] rest read_bytes e n = refl
payload-cut (f ∷ fs) rest read_bytes e n =
    sym (append-nil (flatten (f ∷ fs))) ∙ (ap (λ l. flatten (f ∷ fs) ++ l) (sym n) ∙ e)

payload-whole : (i : Read) → IsWhole i → payload (cut i.data_bytes).0 i.data_bytes ≡ i.data_bytes
payload-whole i h =
    payload-cut (cut i.data_bytes).0 (cut i.data_bytes).1 i.data_bytes
      (extract_frames_lem (length i.data_bytes) i.data_bytes (omega arith)).0 h.none_left

module _ (fl : Floats) (supply : ℕ → Draw) (decode : Bytes → Text) (read_int : Text → Option ℤ)
    (render_local render_utc : ℤ → Bytes) where
  open fl use {Float}

  forward_box-sent :
      (i : Read) (frames : List Bytes) (s : ProxyServer Float)
      → i.cloud_sent ≡ true
      → let (s', goes_on) =
          forward_box fl supply decode read_int render_local render_utc i frames false s in
        (goes_on ≡ true)
        × (s'.twin_delivery ≡ s.twin_delivery)
        × (s'.to_cloud ≡ payload frames i.data_bytes ∷ s.to_cloud)
        × (s'.to_box ≡ s.to_box)
  unfolding forward_box send_to_cloud
  forward_box-sent i [] s sent = ground (arith, sent)
  forward_box-sent i (f ∷ fs) s sent = ground (arith, sent)

  -- what a turn leaves behind: the pipe goes on, with the rest in the buffer
  abbrev IsTurn : Bytes → Read → ProxyServer Float → ProxyServer Float × (Bytes × Bool) → Type 0
  IsTurn buf i s (s', (rest, goes_on)) =
      (goes_on ≡ true)
      × (rest ≡ (cut (buf ++ i.data_bytes)).1)
      × IsQuiet s'
      × (s'.to_cloud ≡ payload (cut (buf ++ i.data_bytes)).0 i.data_bytes ∷ s.to_cloud)
      × (s'.to_box ≡ s.to_box)

  box_turn-IsTurn :
      (session : Option Text) (i : Read) (buf : Bytes) (s : ProxyServer Float)
      → IsQuiet s
      → i.cloud_sent ≡ true
      → IsTurn buf i s (box_turn fl supply decode read_int render_local render_utc session i buf s)
  unfolding box_turn
  box_turn-IsTurn session i buf s e sent =
      let (frames, rest) = cut (buf ++ i.data_bytes) in
      let h =
        handle_box_frames fl supply decode read_int render_local render_utc i.readings session
          frames s in
      let (quiet, same, chunks, withheld) =
        handle_box_frames-quiet fl supply decode read_int render_local render_utc i.readings session
          frames s e in
      let (on, twin, cloud, box) = forward_box-sent i frames h.0 sent in
      rw (chunks, withheld)
        (
          on,
          refl,
          ap (λ d. d.twin_queue.queue) twin ∙ quiet,
          cloud ∙ ap (λ w. payload frames i.data_bytes ∷ w.1.0) same,
          box ∙ ap (λ w. w.0) same,
        )

  -- While no setting waits in the queue, and each read of the box ends with a whole frame and is
  -- taken by the cloud, the pipe writes to the cloud what it reads, read by read and byte for byte,
  -- and it writes nothing to the box.
  pub pipe_box_to_cloud-sends :
      (session : Option Text) (is : List Read) (s : ProxyServer Float)
      → IsQuiet s
      → Holds IsWhole is
      → let s' =
          pipe_box_to_cloud fl supply decode read_int render_local render_utc session is [] s in
        (s'.to_cloud ≡ sent_before is s.to_cloud) × (s'.to_box ≡ s.to_box)
  unfolding pipe_box_to_cloud
  pipe_box_to_cloud-sends session [] s e h = (refl, refl)
  pipe_box_to_cloud-sends session (i ∷ is) s e h =
      let t = box_turn fl supply decode read_int render_local render_utc session i [] s in
      let (on, rest, quiet, cloud, box) = box_turn-IsTurn session i [] s e h.0.sent in
      let (cloud', box') = pipe_box_to_cloud-sends session is t.0 quiet h.1 in
      rw (on, rest ∙ h.0.none_left)
        (
          cloud'
              ∙ ap (λ l. sent_before is l) (cloud ∙ ap (λ x. x ∷ s.to_cloud) (payload-whole i h.0)),
          box' ∙ box,
        )

  -- While no setting waits in the queue and the cloud takes what is written to it: of a frame that
  -- the box sends in two parts, the cloud gets the first part, and then the whole frame.
  pub pipe_box_to_cloud-repeats :
      (session : Option Text) (i j : Read) (s : ProxyServer Float)
      → IsQuiet s
      → i.cloud_sent ≡ true
      → j.cloud_sent ≡ true
      → cut i.data_bytes ≡ ([], i.data_bytes)
      → cut (i.data_bytes ++ j.data_bytes) ≡ ((i.data_bytes ++ j.data_bytes) ∷ [], [])
      → (pipe_box_to_cloud fl supply decode read_int render_local render_utc session
          (i ∷ j ∷ [])
          []
          s).to_cloud
        ≡ (i.data_bytes ++ j.data_bytes) ∷ i.data_bytes ∷ s.to_cloud
  unfolding pipe_box_to_cloud
  pipe_box_to_cloud-repeats session i j s e si sj part whole =
      let t = box_turn fl supply decode read_int render_local render_utc session i [] s in
      let (on, rest, quiet, cloud, box) = box_turn-IsTurn session i [] s e si in
      let (on', rest', quiet', cloud', box') =
        box_turn-IsTurn session j i.data_bytes t.0 quiet sj in
      rw (on, rest ∙ ap (λ p. p.1) part, on')
        (cloud'
          ∙ (ap (λ p. payload p.0 j.data_bytes ∷ t.0.to_cloud) whole
              ∙ (ap (λ x. x ∷ t.0.to_cloud) (append-nil (i.data_bytes ++ j.data_bytes))
                  ∙ ap (λ l. (i.data_bytes ++ j.data_bytes) ∷ l)
                      (cloud ∙ ap (λ p. payload p.0 i.data_bytes ∷ s.to_cloud) part))))
