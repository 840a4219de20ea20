-- ===== src/Frame/Stream.antt =====
-- No byte of the stream is lost or changed by the cutting into frames, and the cutting ends.
use mathlib.Core.List.{append_assoc, flatten}
use oig_proxy.Common.{
  ℕ, zero, suc, ◌+◌, ◌*◌, ◌≤◌, ◌≡◌, refl, sym, ap, subst, ◌∙◌, inl, inr, Option, none, some, List,
  [], ◌∷◌, ◌++◌, arith, length, length-append, Option-cases,
}
use oig_proxy.Frame.Crc.{Bytes}
use oig_proxy.Frame.Match.{after, find}
use oig_proxy.Frame.Build.{frame_close}
use oig_proxy.Frame.Extract.{line_end, extract_frame_from_buffer, extract_frames}

pub after-some : (p s r : Bytes) → after p s ≡ some r → s ≡ p ++ r
unfolding after
after-some [] s r h = ground (arith, h)
after-some (c ∷ cs) [] r h = absurd (ground arith)
after-some (c ∷ cs) (d ∷ s) r h = ground (arith, after-some cs s r)

pub find-some : (p s before r : Bytes) → find p s ≡ some (before, r) → s ≡ before ++ (p ++ r)
unfolding find
find-some p [] before r h = ground (arith, after-some p [] r)
find-some p (c ∷ s) before r h = elim (Option-cases (after p (c ∷ s))) [
  | inr (r', e) ↦ ground (arith, e, after-some p (c ∷ s) r')
  | inl e ↦ elim (Option-cases (find p s)) [
    | inl f ↦ absurd (ground (arith, e, f))
    | inr (q, f) ↦ ground (arith, e, f, find-some p s q.0 q.1)
  ]
]

line_end-some : (s e r : Bytes) → line_end s ≡ some (e, r) → s ≡ e ++ r
unfolding line_end
line_end-some [] e r h = ground arith
line_end-some (c ∷ []) e r h = ground arith
line_end-some (c ∷ d ∷ s) e r h = ground arith

frame-append :
    (buf before rest line rest' frame left : Bytes)
    → buf ≡ before ++ (frame_close ++ rest)
    → rest ≡ line ++ rest'
    → frame ≡ before ++ (frame_close ++ line)
    → left ≡ rest'
    → buf ≡ frame ++ left
frame-append buf before rest line rest' frame left b r f l =
    b
    ∙ ap (λ x. before ++ (frame_close ++ x)) r
    ∙ ap (λ x. before ++ x) (sym (append_assoc frame_close line rest'))
    ∙ sym (append_assoc before (frame_close ++ line) rest')
    ∙ ap (λ x. x ++ rest') (sym f)
    ∙ ap (λ x. frame ++ x) (sym l)

-- A frame that is cut off ends, but for its line end, with the closing tag, and with what is left
-- it makes up the buffer.
extract-some :
    (buf frame left : Bytes)
    → extract_frame_from_buffer buf ≡ (some frame, left)
    → (before : Bytes) × (line : Bytes) × (frame ≡ before ++ (frame_close ++ line))
      × (buf ≡ frame ++ left)
unfolding extract_frame_from_buffer
extract-some buf frame left h = elim (Option-cases (find frame_close buf)) [
  | inl e ↦ absurd (ground (arith, e))
  | inr (q, e) ↦ elim (Option-cases (line_end q.1)) [
    | inl f ↦ absurd (ground (arith, e, f))
    | inr (l, f) ↦ (
      q.0,
      l.0,
      ground (arith, e, f),
      frame-append buf q.0 q.1 l.0 l.1 frame left (find-some frame_close buf q.0 q.1 e)
          (line_end-some q.1 l.0 l.1 f) (ground (arith, e, f)) (ground (arith, e, f)),
    )
  ]
]

extract-none : (buf left : Bytes) → extract_frame_from_buffer buf ≡ (none, left) → left ≡ buf
unfolding extract_frame_from_buffer
extract-none buf left h = elim (Option-cases (find frame_close buf)) [
  | inl e ↦ ground (arith, e)
  | inr (q, e) ↦ elim (Option-cases (line_end q.1)) [
    | inl f ↦ ground (arith, e, f)
    | inr (l, f) ↦ absurd (ground (arith, e, f))
  ]
]

frame-long :
    (buf frame left : Bytes)
    → extract_frame_from_buffer buf ≡ (some frame, left)
    → length left + 8 ≤ length buf
frame-long buf frame left h =
    let (before, line, f, b) = extract-some buf frame left h in
    ground (
      arith,
      ap length b,
      ap length f,
      length-append frame left,
      length-append before (frame_close ++ line),
      length-append frame_close line,
    )

frames-append :
    (frame left buf rest : Bytes) (frames : List Bytes)
    → buf ≡ frame ++ left
    → flatten frames ++ rest ≡ left
    → flatten (frame ∷ frames) ++ rest ≡ buf
unfolding flatten
frames-append frame left buf rest frames b h =
    append_assoc frame (flatten frames) rest ∙ ap (λ x. frame ++ x) h ∙ sym b

pair-some :
    (buf frame : Bytes)
    → (extract_frame_from_buffer buf).0 ≡ some frame
    → extract_frame_from_buffer buf ≡ (some frame, (extract_frame_from_buffer buf).1)
pair-some buf frame e = ap (λ x. (x, (extract_frame_from_buffer buf).1)) e

none-left : (x : Option Bytes × Bytes) (buf : Bytes) → x.0 ≡ none → x.1 ≡ buf → x ≡ (none, buf)
none-left x buf e f = ap (λ e. (e, x.1)) e ∙ ap (λ f. (none, f)) f

extract_frames-none :
    (fuel : ℕ) (buf : Bytes)
    → (extract_frame_from_buffer buf).0 ≡ none
    → extract_frames (suc fuel) buf ≡ ([], buf)
unfolding extract_frames
extract_frames-none fuel buf e = ground (arith, e)

extract_frames-some :
    (fuel : ℕ) (buf frame : Bytes)
    → (extract_frame_from_buffer buf).0 ≡ some frame
    → extract_frames (suc fuel) buf ≡ (
      frame ∷ (extract_frames fuel (extract_frame_from_buffer buf).1).0,
      (extract_frames fuel (extract_frame_from_buffer buf).1).1,
    )
unfolding extract_frames
extract_frames-some fuel buf frame e = ground (arith, e)

-- The frames one after the other and then what is left are the buffer, no further frame can be
-- taken from what is left, and there is at most one frame for every eight bytes.
abbrev pub IsCut : Bytes → List Bytes → Bytes → Type 0
IsCut buf frames left =
    (flatten frames ++ left ≡ buf)
    × (extract_frame_from_buffer left ≡ (none, left))
    × (8 * length frames ≤ length buf)

IsCut-cons :
    (buf frame : Bytes) (frames : List Bytes) (left : Bytes)
    → extract_frame_from_buffer buf ≡ (some frame, (extract_frame_from_buffer buf).1)
    → length (extract_frame_from_buffer buf).1 + 8 ≤ length buf
    → IsCut (extract_frame_from_buffer buf).1 frames left
    → IsCut buf (frame ∷ frames) left
IsCut-cons buf frame frames left pair long (all_bytes, no_more, few) =
    let (before, line, f, b) = extract-some buf frame (extract_frame_from_buffer buf).1 pair in
    (
      frames-append frame (extract_frame_from_buffer buf).1 buf left frames b all_bytes,
      no_more,
      omega (arith, few, long),
    )

-- With as much fuel as the buffer has bytes, the loop over a buffer ends for want of a whole
-- frame: the frames one after the other and then what is left are the buffer, byte for byte, no
-- further frame can be taken from what is left, and there is at most one frame for every eight
-- bytes.
pub extract_frames_lem :
    (fuel : ℕ) (buf : Bytes)
    → length buf ≤ fuel
    → IsCut buf (extract_frames fuel buf).0 (extract_frames fuel buf).1
unfolding extract_frames flatten
extract_frames_lem zero [] le = (refl, refl, ground arith)
extract_frames_lem zero (c ∷ buf) le = absurd (omega (arith, le))
extract_frames_lem (suc fuel) buf le = elim (Option-cases ((extract_frame_from_buffer buf).0)) [
  | inl e ↦
      subst (λ p. IsCut buf p.0 p.1) (sym (extract_frames-none fuel buf e))
        (let stays =
            extract-none buf (extract_frame_from_buffer buf).1 (
              none-left (extract_frame_from_buffer buf) (extract_frame_from_buffer buf).1 e refl) in
          (refl, none-left (extract_frame_from_buffer buf) buf e stays, ground arith))
  | inr (frame, e) ↦
      let pair = pair-some buf frame e in
      let long = frame-long buf frame (extract_frame_from_buffer buf).1 pair in
      subst (λ p. IsCut buf p.0 p.1) (sym (extract_frames-some fuel buf frame e))
        (IsCut-cons buf frame _ _ pair long
          (extract_frames_lem fuel (extract_frame_from_buffer buf).1 (omega (arith, long, le))))
]
