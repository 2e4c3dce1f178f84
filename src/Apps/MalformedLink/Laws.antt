-- ===== src/Apps/MalformedLink/Laws.antt =====
-- The decoder of the malformed link recovers, whatever the frame.
use picomesh.Base.{
  ℕ, suc, ◌-◌, ◌<◌, ◌≡◌, ◌≢◌, refl, sym, ◌∙◌, ap, ap₂, subst, List, [], ◌∷◌, ◌++◌, arith, replicate,
  bit_xor, bit_xor_one,
}
use picomesh.Base.{
  length, get_or, set, take, take-suc-set, take-set, length-set, take-append, take_all,
  AllBytes-get_or, get_or-append_left,
}
use picomesh.Frame.{
  Frame, IsFrame, bad_checksum, unsupported_version, payload_too_large, encode_frame,
}
use picomesh.Frame.Wire.{wire, length-wire, wire-AllBytes, encode_frame-wire, sent_length}
use picomesh.Frame.Decode.{sent}
use picomesh.StreamDecoder.{StreamDecoder, new_decoder, pending, error_result, feed}
use picomesh.StreamDecoder.Step.{new_decoder-IsValid, discarded_result, feed-noise}
use picomesh.StreamDecoder.Delivery.{ready}
use picomesh.Apps.MalformedLink.{
  feed_bytes, expect, flip_last, unsupported_bytes, oversized_payload, in_use, simulate,
}
use picomesh.Apps.MalformedLink.Steps.{IsIdle, Ends, wire-Ends, unsupported-Ends, oversized-Ends}
use picomesh.Apps.MalformedLink.WrongChecksum.{wrong-Ends}

in_use-encode_frame : {f : Frame} → IsFrame f → in_use (encode_frame f) ≡ wire f
in_use-encode_frame {f} fr =
    ap₂ take (encode_frame-wire fr).1 (encode_frame-wire fr).0
    ∙ take-append (wire f) (replicate (32 - sent_length f) 0) (length (wire f)) refl

-- The last byte of the frame, flipped.
abbrev flipped : Frame → ℕ
flipped f = bit_xor (get_or (wire f) (length (wire f) - 1) 0) 1

in_use-flip_last :
    {f : Frame}
    → IsFrame f
    → in_use (flip_last (encode_frame f)) ≡ take (length (wire f) - 1) (wire f) ++ flipped f ∷ []
unfolding flip_last
in_use-flip_last {f} fr =
    ap₂ (λ bs (k : ℕ). take k (set bs (k - 1) (bit_xor (get_or bs (k - 1) 0) 1)))
      (encode_frame-wire fr).0 (encode_frame-wire fr).1
    ∙ ap (λ b. take (length (wire f)) (set (wire f ++ rest) n (bit_xor b 1)))
        (get_or-append_left (wire f) rest n 0 long)
    ∙ ap (λ k. take k (set (wire f ++ rest) n (flipped f))) whole
    ∙ take-set (suc n) n (wire f ++ rest) (flipped f)
    ∙ ap (λ bs. set bs n (flipped f)) (take-append (wire f) rest (suc n) (omega (arith, long)))
    ∙ sym (
        take_all (suc n) (set (wire f) n (flipped f))
          (omega (arith, length-set (wire f) n (flipped f), long)))
    ∙ take-suc-set (wire f) n (flipped f) long
  where
    n : ℕ
    n = length (wire f) - 1

    rest : List ℕ
    rest = replicate (32 - sent_length f) 0

    long : n < length (wire f)
    long = omega (arith, length-wire fr)

    whole : length (wire f) ≡ suc n
    whole = omega (arith, long)

flipped-other :
    {f : Frame}
    → IsFrame f
    → (flipped f < 256) × (flipped f ≢ get_or (wire f) (length (wire f) - 1) 0)
flipped-other {f} fr =
    let b : get_or (wire f) (length (wire f) - 1) 0 < 256 =
      AllBytes-get_or (wire f) (length (wire f) - 1) (wire-AllBytes fr) in
    let x = bit_xor_one (get_or (wire f) (length (wire f) - 1) 0) b in
    (omega (arith, x, b), λ e. omega (arith, x, b, e))

flipped-Ends :
    {f : Frame} {d : StreamDecoder}
    → IsFrame f
    → IsIdle d
    → Ends d (in_use (flip_last (encode_frame f))) (error_result bad_checksum)
flipped-Ends {f} {d} fr h =
    subst (λ bs. Ends d bs (error_result bad_checksum)) (sym (in_use-flip_last fr))
      (wrong-Ends fr (flipped f) (flipped-other fr).0 (flipped-other fr).1 h)

encoded-Ends :
    {f : Frame} {d : StreamDecoder}
    → IsFrame f
    → IsIdle d
    → Ends d (in_use (encode_frame f)) (ready (sent f))
encoded-Ends {f} {d} fr h =
    subst (λ bs. Ends d bs (ready (sent f))) (sym (in_use-encode_frame fr)) (wire-Ends fr h)

-- Whatever frame whose fields fit their C++ types the program of the malformed link is run with,
-- every outcome is the expected one and its exit code is 0: the noise is discarded, a flipped
-- checksum, a wrong version and an oversized payload are refused with their own errors, and after
-- each the next frame is delivered.
pub simulate-recovers : (f : Frame) → IsFrame f → simulate f ≡ 0
unfolding simulate expect
simulate-recovers f fr =
    rw
      (
        noise, first.last, corrupted.last, second.last, unsupported.last, third.last,
        oversized.last, fourth.last,
      )
      refl
  where
    noise : feed new_decoder 0 ≡ (new_decoder, discarded_result)
    noise = feed-noise 0 new_decoder-IsValid refl (omega arith)

    start : IsIdle new_decoder
    start = record { valid = new_decoder-IsValid; empty = refl }

    valid : List ℕ
    valid = in_use (encode_frame f)

    wrong : List ℕ
    wrong = in_use (flip_last (encode_frame f))

    d₁ : StreamDecoder
    d₁ = (feed_bytes new_decoder valid pending).0

    d₂ : StreamDecoder
    d₂ = (feed_bytes d₁ wrong pending).0

    d₃ : StreamDecoder
    d₃ = (feed_bytes d₂ valid pending).0

    d₄ : StreamDecoder
    d₄ = (feed_bytes d₃ unsupported_bytes pending).0

    d₅ : StreamDecoder
    d₅ = (feed_bytes d₄ valid pending).0

    d₆ : StreamDecoder
    d₆ = (feed_bytes d₅ oversized_payload pending).0

    first : Ends new_decoder valid (ready (sent f))
    first = encoded-Ends fr start

    corrupted : Ends d₁ wrong (error_result bad_checksum)
    corrupted = flipped-Ends fr first.idle

    second : Ends d₂ valid (ready (sent f))
    second = encoded-Ends fr corrupted.idle

    unsupported : Ends d₃ unsupported_bytes (error_result unsupported_version)
    unsupported = unsupported-Ends second.idle

    third : Ends d₄ valid (ready (sent f))
    third = encoded-Ends fr unsupported.idle

    oversized : Ends d₅ oversized_payload (error_result payload_too_large)
    oversized = oversized-Ends third.idle

    fourth : Ends d₆ valid (ready (sent f))
    fourth = encoded-Ends fr oversized.idle
