-- ===== src/StreamDecoder/Recovery.antt =====
-- Streams of frames with noise between them.
use picomesh.Base.{
  ℕ, zero, suc, ◌-◌, ◌≡◌, ◌≢◌, refl, ◌∙◌, ap, List, [], ◌∷◌, ◌++◌, arith, length, replicate,
}
use picomesh.Frame.{Frame, IsFrame, frame_magic}
use picomesh.Frame.Wire.{wire}
use picomesh.Frame.Decode.{sent}
use picomesh.StreamDecoder.{StreamDecoder, StreamResult, frame_ready, feed, feed_all, pending}
use picomesh.StreamDecoder.Step.{IsValid, feed-noise, discarded_result}
use picomesh.StreamDecoder.Delivery.{ready, feed_all-wire}

-- The frames among the results.
abbrev pub frames_of : List StreamResult → List Frame
frames_of [] = []
frames_of (r ∷ rs) = elim r.status [ frame_ready ↦ r.frame ∷ frames_of rs | _ ↦ frames_of rs ]

frames_of-append : (rs ss : List StreamResult) → frames_of (rs ++ ss) ≡ frames_of rs ++ frames_of ss
frames_of-append [] ss = refl
frames_of-append (r ∷ rs) ss = ground (arith, frames_of-append rs ss)

frames_of-pending : (n : ℕ) → frames_of (replicate n pending) ≡ []
frames_of-pending zero = refl
frames_of-pending (suc n) = frames_of-pending n

frames_of-discarded : (n : ℕ) → frames_of (replicate n discarded_result) ≡ []
frames_of-discarded zero = refl
frames_of-discarded (suc n) = frames_of-discarded n

feed_all-append :
    (d : StreamDecoder) (xs ys : List ℕ)
    → ((feed_all d (xs ++ ys)).0 ≡ (feed_all (feed_all d xs).0 ys).0)
      × ((feed_all d (xs ++ ys)).1 ≡ (feed_all d xs).1 ++ (feed_all (feed_all d xs).0 ys).1)
unfolding feed_all
feed_all-append d [] ys = (refl, refl)
feed_all-append d (x ∷ xs) ys =
    let rest = feed_all-append (feed d x).0 xs ys in (rest.0, ap (λ rs. (feed d x).1 ∷ rs) rest.1)

-- Bytes that do not begin a frame.
abbrev pub IsNoise : List ℕ → Type 0
IsNoise [] = Unit
IsNoise (b ∷ bs) = (b ≢ frame_magic) × IsNoise bs

feed_all-noise :
    (d : StreamDecoder) (bs : List ℕ)
    → IsValid d
    → d.size ≡ 0
    → IsNoise bs
    → feed_all d bs ≡ (d, replicate (length bs) discarded_result)
unfolding feed_all
feed_all-noise d [] v e h = refl
feed_all-noise d (b ∷ bs) v e h = rw (feed-noise b v e h.0) (
    ap (λ (p : StreamDecoder × List StreamResult). (p.0, discarded_result ∷ p.1))
      (feed_all-noise d bs v e h.1))

-- Noise in front of a stream changes nothing for what is delivered and held.
skip_noise :
    (d : StreamDecoder) (bs rest : List ℕ)
    → IsValid d
    → d.size ≡ 0
    → IsNoise bs
    → (frames_of (feed_all d (bs ++ rest)).1 ≡ frames_of (feed_all d rest).1)
      × ((feed_all d (bs ++ rest)).0 ≡ (feed_all d rest).0)
skip_noise d bs rest v e h = (
  ap frames_of (whole.1)
      ∙ frames_of-append (feed_all d bs).1 (feed_all (feed_all d bs).0 rest).1
      ∙ ap
          (λ (p : StreamDecoder × List StreamResult).
            frames_of p.1 ++ frames_of (feed_all p.0 rest).1)
          quiet
      ∙ ap (λ fs. fs ++ frames_of (feed_all d rest).1) (frames_of-discarded (length bs)),
  whole.0 ∙ ap (λ (p : StreamDecoder × List StreamResult). (feed_all p.0 rest).0) quiet,
)
  where
    whole :
        ((feed_all d (bs ++ rest)).0 ≡ (feed_all (feed_all d bs).0 rest).0)
        × ((feed_all d (bs ++ rest)).1 ≡ (feed_all d bs).1 ++ (feed_all (feed_all d bs).0 rest).1)
    whole = feed_all-append d bs rest

    quiet : feed_all d bs ≡ (d, replicate (length bs) discarded_result)
    quiet = feed_all-noise d bs v e h

-- A frame in front of a stream is delivered before what the rest of the stream delivers.
deliver_first :
    (d : StreamDecoder) (f : Frame) (rest : List ℕ)
    → IsValid d
    → d.size ≡ 0
    → IsFrame f
    → frames_of (feed_all d (wire f ++ rest)).1
      ≡ sent f ∷ frames_of (feed_all (feed_all d (wire f)).0 rest).1
deliver_first d f rest v e fr =
    ap frames_of (feed_all-append d (wire f) rest).1
    ∙ frames_of-append (feed_all d (wire f)).1 after
    ∙ ap (λ rs. frames_of rs ++ frames_of after) (feed_all-wire fr d v e).2
    ∙ ap (λ fs. fs ++ frames_of after)
        (frames_of-append (replicate (length (wire f) - 1) pending) (ready (sent f) ∷ []))
    ∙ ap (λ fs. (fs ++ sent f ∷ []) ++ frames_of after) (frames_of-pending (length (wire f) - 1))
  where
    after : List StreamResult
    after = (feed_all (feed_all d (wire f)).0 rest).1

-- Each frame behind its noise.
abbrev pub stream_of : List (List ℕ × Frame) → List ℕ
stream_of [] = []
stream_of ((bs, f) ∷ chunks) = bs ++ (wire f ++ stream_of chunks)

abbrev pub AreChunks : List (List ℕ × Frame) → Type 0
AreChunks [] = Unit
AreChunks ((bs, f) ∷ chunks) = IsNoise bs × IsFrame f × AreChunks chunks

abbrev pub sent_frames : List (List ℕ × Frame) → List Frame
sent_frames [] = []
sent_frames ((bs, f) ∷ chunks) = sent f ∷ sent_frames chunks

-- A valid decoder that holds nothing delivers exactly the frames of a stream, in their order,
-- whatever noise without a magic byte stands before each of them, and holds nothing at the end.
pub feed_all-stream_of :
    (d : StreamDecoder) (chunks : List (List ℕ × Frame))
    → IsValid d
    → d.size ≡ 0
    → AreChunks chunks
    → (frames_of (feed_all d (stream_of chunks)).1 ≡ sent_frames chunks)
      × ((feed_all d (stream_of chunks)).0.size ≡ 0)
unfolding feed_all
feed_all-stream_of d [] v e h = (refl, e)
feed_all-stream_of d ((bs, f) ∷ chunks) v e h =
    let behind = feed_all-wire h.1 d v e in
    let later = feed_all-stream_of (feed_all d (wire f)).0 chunks behind.0 behind.1 h.2 in
    let skipped = skip_noise d bs (wire f ++ stream_of chunks) v e h.0 in
    (
      skipped.0 ∙ deliver_first d f (stream_of chunks) v e h.1 ∙ ap (λ fs. sent f ∷ fs) later.0,
      ap (λ (s : StreamDecoder). s.size)
            (skipped.1 ∙ (feed_all-append d (wire f) (stream_of chunks)).0)
          ∙ later.1,
    )
