-- ===== src/Server/Forwarding.antt =====
-- The bytes of the box that go to the cloud, while no setting waits for the box.
use oig_proxy.Common.{
  ℕ, ◌≡◌, ◌∙◌, refl, ap, arith, Bool, false, ◌&&◌, if◌then◌else◌, Option, none, List, [], ◌∷◌, Text,
  text_eq, pair_eq,
}
use oig_proxy.Common.Dict
use oig_proxy.Common.Dict.{Dict}
use oig_proxy.Common.Decimal.{ℤ}
use oig_proxy.Common.Keeps.{keep-if}
use oig_proxy.Values.{Floats}
use oig_proxy.Audit.Records.{Draw}
use oig_proxy.Queue
use oig_proxy.Queue.{TwinSetting}
use oig_proxy.Frame.Crc.{Bytes}
use oig_proxy.Frame.Parse.{parse_xml_frame}
use oig_proxy.Delivery.Follow.{is_cloud_inflight}
use oig_proxy.Delivery.Local.{has_pending}
use oig_proxy.Delivery.Steps.Taking.{expire-Has}
use oig_proxy.Server.Frames.{is_in, poll_result_values, effective_table_name}
use oig_proxy.Server.State.{ProxyServer, Readings}
use oig_proxy.Server.Acks.{with_delivery, handle_twin_frames}
use oig_proxy.Server.Box.{
  next, process_frame, observe_ids, may_answer, handle_box_frame, handle_box_frames,
}
use oig_proxy.Server.Keeps.{may_answer-Has, observe_ids-Has, handle_twin_frames-Has}
use oig_proxy.Server.SameBox.{wire, may_answer-wire, observe_ids-wire, handle_twin_frames-wire}

-- No setting waits in the queue.
abbrev pub IsQuiet : {F : Type 0} → ProxyServer F → Type 0
IsQuiet s = s.twin_delivery.twin_queue.queue ≡ []

pub erase-empty :
    {F : Type 0} (k : Text × Text) (q : Dict (Text × Text) (TwinSetting F))
    → q ≡ []
    → Dict.erase k q ≡ []
unfolding Dict.erase
erase-empty k q e = rw e refl

module _ (fl : Floats) (supply : ℕ → Draw) (decode : Bytes → Text) (read_int : Text → Option ℤ)
    (render_local render_utc : ℤ → Bytes) where
  open fl use {Float}

  pending-quiet : (s : ProxyServer Float) → IsQuiet s → has_pending s.twin_delivery ≡ false
  unfolding has_pending Queue.size
  pending-quiet s e = ground (arith, e)

  polled : Readings → Bool → ProxyServer Float → ProxyServer Float
  polled r polls s =
      if polls && s.has_twin_delivery
      then with_delivery (is_cloud_inflight fl supply r.poll_at s.twin_delivery).0 s
      else s

  inflight-IsQuiet :
      (t : ℕ) (s : ProxyServer Float)
      → IsQuiet s
      → IsQuiet (with_delivery (is_cloud_inflight fl supply t s.twin_delivery).0 s)
  unfolding is_cloud_inflight with_delivery
  inflight-IsQuiet t s e = expire-Has fl supply (λ q. q ≡ []) erase-empty t s.twin_delivery e

  polled-IsQuiet :
      (r : Readings) (polls : Bool) (s : ProxyServer Float) → IsQuiet s → IsQuiet (polled r polls s)
  unfolding polled
  polled-IsQuiet r polls s e =
      keep-if (λ (x : ProxyServer Float). IsQuiet x) (polls && s.has_twin_delivery)
        (inflight-IsQuiet r.poll_at s e) e

  may_answer-quiet :
      (r : Readings) (polls : Bool) (s : ProxyServer Float)
      → IsQuiet s
      → (may_answer fl supply decode read_int render_local render_utc r polls s).1 ≡ false
  unfolding may_answer polled
  may_answer-quiet r polls s e =
      ground (arith, pending-quiet (polled r polls s) (polled-IsQuiet r polls s e))

  -- The frame was let through: no setting waits, nothing was written, and it is not withheld.
  abbrev IsPassed : ProxyServer Float → ProxyServer Float × Bool → Type 0
  IsPassed s (s', withheld) = IsQuiet s' × (wire s' ≡ wire s) × (withheld ≡ false)

  handle_box_frame-quiet :
      (r : Readings) (session : Option Text) (frame : Bytes) (s : ProxyServer Float)
      → IsQuiet s
      → IsPassed s
          (handle_box_frame fl supply decode read_int render_local render_utc r session frame s)
  unfolding handle_box_frame
  handle_box_frame-quiet r session frame s e =
      let text = decode frame in
      let s1 =
        handle_twin_frames fl supply decode read_int render_local render_utc r none false frame s in
      let s2 =
        observe_ids fl supply decode read_int render_local render_utc text
          (process_frame fl supply decode read_int render_local render_utc frame s1) in
      let polls =
        is_in poll_result_values
          (effective_table_name fl (parse_xml_frame fl read_int text) text) in
      let e2 : IsQuiet s2 =
        observe_ids-Has fl supply (λ q. q ≡ []) erase-empty decode read_int render_local render_utc
          text frame s1
          (handle_twin_frames-Has fl supply (λ q. q ≡ []) erase-empty decode read_int render_local
            render_utc r none frame s e) in
      rw (may_answer-quiet r polls s2 e2) (
        may_answer-Has fl supply (λ q. q ≡ []) erase-empty decode read_int render_local render_utc r
            polls s2 e2,
        may_answer-wire fl supply decode read_int render_local render_utc r polls s2
            ∙ (observe_ids-wire fl supply decode read_int render_local render_utc text frame s1
                ∙ handle_twin_frames-wire fl supply decode read_int render_local render_utc r none
                    frame s),
        refl,
      )

  abbrev pub ArePassed :
      List Bytes → ProxyServer Float → ProxyServer Float × (List Bytes × Bool) → Type 0
  ArePassed frames s (s', (chunks, withheld)) =
      IsQuiet s' × (wire s' ≡ wire s) × (chunks ≡ frames) × (withheld ≡ false)

  pub handle_box_frames-quiet :
      (readings : ℕ → Readings) (session : Option Text) (frames : List Bytes)
      (s : ProxyServer Float)
      → IsQuiet s
      → ArePassed frames s (
          handle_box_frames fl supply decode read_int render_local render_utc readings session
            frames s)
  unfolding handle_box_frames
  handle_box_frames-quiet readings session [] s e = (e, refl, refl, refl)
  handle_box_frames-quiet readings session (f ∷ fs) s e =
      let p =
        handle_box_frame fl supply decode read_int render_local render_utc (readings 0) session f
          s in
      let (e1, w1, n1) = handle_box_frame-quiet (readings 0) session f s e in
      let (e2, w2, c2, n2) = handle_box_frames-quiet (next readings) session fs p.0 e1 in
      (e2, w2 ∙ w1, rw n1 (ap (λ l. f ∷ l) c2), rw n1 n2)
