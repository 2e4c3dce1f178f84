-- ===== src/StreamDecoder/Stream.antt =====
-- Whole streams: bounds, what is delivered, and recovery.
use picomesh.Base.{ℕ, ◌+◌, ◌≤◌, ◌<◌, ◌≡◌, refl, sym, ◌∙◌, subst, List, [], ◌∷◌, ◌++◌, arith, some}
use picomesh.Base.{length, set, take, AllBytes, AllBytes-set, length-set, take-suc-set}
use native.Mathlib.Numerals.{add-one}
use picomesh.Frame.{DecodeError, DecodeResult, decode_frame, max_encoded_frame_size}
use picomesh.Frame.Wire.{wire}
use picomesh.Frame.Accepted.{IsCanonical, decode_frame_iff}
use picomesh.StreamDecoder.{
  StreamDecoder, StreamResult, frame_ready, new_decoder, buffered_size, reset, fail, decoded_result,
  feed, feed_all,
}
use picomesh.StreamDecoder.Step.{
  IsValid, Fed, noise, start, wrong_version, header_byte, too_large, length_byte, payload_byte,
  last_byte, feed-Fed, new_decoder-IsValid,
}
use picomesh.StreamDecoder.Invariant.{feed-IsValid}

feed_all-IsValid :
    (d : StreamDecoder) (bs : List ℕ) → AllBytes bs → IsValid d → IsValid (feed_all d bs).0
unfolding feed_all
feed_all-IsValid d [] all v = v
feed_all-IsValid d (b ∷ bs) all v = feed_all-IsValid (feed d b).0 bs all.1 (feed-IsValid b all.0 v)

-- Whatever bytes a new decoder is fed, it holds fewer than 40 of them afterwards, and its array
-- keeps its 40 bytes.
pub buffered_size-lt :
    (bs : List ℕ)
    → AllBytes bs
    → (buffered_size (feed_all new_decoder bs).0 < max_encoded_frame_size)
      × (length (feed_all new_decoder bs).0.buffer ≡ max_encoded_frame_size)
unfolding buffered_size
buffered_size-lt bs all =
    let v = feed_all-IsValid new_decoder bs all new_decoder-IsValid in
    (omega (arith, v.header), v.storage)

decoded_result-ready :
    (r : DecodeResult)
    → (decoded_result r).status ≡ frame_ready
    → (r.error ≡ DecodeError.none) × ((decoded_result r).frame ≡ r.frame)
unfolding decoded_result
decoded_result-ready r e = ground arith

-- What a delivered frame says about the bytes that were held.
abbrev IsDelivery : StreamDecoder → ℕ → StreamDecoder × StreamResult → Type 0
IsDelivery d b out =
    IsCanonical out.1.frame × (take d.size d.buffer ++ b ∷ [] ≡ wire out.1.frame) × (out.0.size ≡ 0)

delivered :
    (buffer : List ℕ) (n : ℕ)
    → AllBytes buffer
    → n ≤ length buffer
    → (decoded_result (decode_frame (some buffer) n)).status ≡ frame_ready
    → IsCanonical (decoded_result (decode_frame (some buffer) n)).frame
      × (take n buffer ≡ wire (decoded_result (decode_frame (some buffer) n)).frame)
delivered buffer n all fits e =
    let r = decode_frame (some buffer) n in
    let good = decoded_result-ready r e in
    subst (λ f. IsCanonical f × (take n buffer ≡ wire f)) (sym good.1)
      ((decode_frame_iff buffer n r.frame all fits).0
        (λ i. record { frame = r.frame; error = good.0 i }))

module _ {d : StreamDecoder} {b : ℕ} (v : IsValid d) (lt : b < 256) where
  Fed-IsDelivery :
      {out : StreamDecoder × StreamResult}
      → Fed d b out
      → out.1.status ≡ frame_ready
      → IsDelivery d b out
  unfolding fail reset
  Fed-IsDelivery (noise e n) r = cc
  Fed-IsDelivery (start e m) r = cc
  Fed-IsDelivery (wrong_version e n) r = cc
  Fed-IsDelivery (header_byte lo hi ok) r = cc
  Fed-IsDelivery (too_large e h) r = cc
  Fed-IsDelivery (length_byte e h) r = cc
  Fed-IsDelivery (payload_byte lo hi) r = cc
  Fed-IsDelivery (last_byte lo hi) r =
      let found =
        delivered (set d.buffer d.size b) (d.size + 1) (AllBytes-set d.buffer d.size b v.bytes lt)
          (omega (arith, length-set d.buffer d.size b, v.storage, v.header)) r in
      (found.0, sym held ∙ found.1, refl)
    where
      held : take (d.size + 1) (set d.buffer d.size b) ≡ take d.size d.buffer ++ b ∷ []
      held = rw add-one (take-suc-set d.buffer d.size b (omega (arith, v.storage, v.header)))

  -- A valid decoder delivers a frame on a byte only if the bytes it holds, followed by that byte,
  -- are exactly the wire format of that canonical frame; afterwards it holds nothing.
  pub feed-IsDelivery :
      (feed d b).1.status ≡ frame_ready
      → IsCanonical (feed d b).1.frame
        × (take d.size d.buffer ++ b ∷ [] ≡ wire (feed d b).1.frame)
        × ((feed d b).0.size ≡ 0)
  feed-IsDelivery = Fed-IsDelivery (feed-Fed b v)
