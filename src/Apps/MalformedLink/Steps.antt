-- ===== src/Apps/MalformedLink/Steps.antt =====
-- How an idle decoder takes a frame, and how it refuses two kinds of broken header.
use picomesh.Base.{
  ◌⊎◌, ℕ, ◌+◌, ◌-◌, ◌≤◌, ◌<◌, ◌≡◌, ◌≢◌, refl, sym, ◌∙◌, ap, subst, List, [], ◌∷◌, ◌++◌, arith, inl,
  inr, replicate,
}
use picomesh.Base.{length}
use picomesh.Frame.{Frame, IsFrame, DecodeError, unsupported_version, payload_too_large}
use picomesh.Frame.Wire.{wire}
use picomesh.Frame.Decode.{sent}
use picomesh.StreamDecoder.{
  StreamDecoder, StreamResult, pending, error_result, feed, feed_all, fail, reset,
}
use picomesh.StreamDecoder.Step.{
  IsValid, stored, feed-start, feed-wrong_version, feed-header_byte, feed-too_large,
}
use picomesh.StreamDecoder.Invariant.{feed-IsValid}
use picomesh.StreamDecoder.Delivery.{ready, feed_all-wire}
use picomesh.Apps.MalformedLink.{feed_bytes, unsupported_bytes, oversized_payload}

-- Between two frames the decoder holds nothing.
pub record IsIdle (d : StreamDecoder) : Type 0 where
  pub valid : IsValid d
  pub empty : d.size ≡ 0

-- The bytes leave an idle decoder and this last result.
pub record Ends (d : StreamDecoder) (bytes : List ℕ) (result : StreamResult) : Type 0 where
  pub idle : IsIdle (feed_bytes d bytes pending).0
  pub last : (feed_bytes d bytes pending).1 ≡ result

last_of : StreamResult → List StreamResult → StreamResult
last_of r [] = r
last_of r (s ∷ rs) = last_of s rs

last_of-append : (r s : StreamResult) (rs : List StreamResult) → last_of r (rs ++ s ∷ []) ≡ s
unfolding last_of
last_of-append r s [] = refl
last_of-append r s (t ∷ rs) = last_of-append t s rs

feed_bytes-feed_all :
    (d : StreamDecoder) (bytes : List ℕ) (r : StreamResult)
    → feed_bytes d bytes r ≡ ((feed_all d bytes).0, last_of r (feed_all d bytes).1)
unfolding feed_bytes feed_all last_of
feed_bytes-feed_all d [] r = refl
feed_bytes-feed_all d (b ∷ bytes) r = feed_bytes-feed_all (feed d b).0 bytes (feed d b).1

pub wire-Ends :
    {f : Frame} {d : StreamDecoder} → IsFrame f → IsIdle d → Ends d (wire f) (ready (sent f))
wire-Ends {f} {d} fr h =
    let out = feed_all-wire fr d h.valid h.empty in
    record {
      idle =
          subst (λ (p : StreamDecoder × StreamResult). IsIdle p.0)
            (sym (feed_bytes-feed_all d (wire f) pending))
            (record { valid = out.0; empty = out.1 });
      last =
          ap (λ (p : StreamDecoder × StreamResult). p.1) (feed_bytes-feed_all d (wire f) pending)
          ∙ ap (last_of pending) out.2
          ∙ last_of-append pending (ready (sent f)) (replicate (length (wire f) - 1) pending);
    }

-- The decoder holds this many bytes of a header.
record Holds (d : StreamDecoder) (k : ℕ) : Type 0 where
  valid : IsValid d
  taken : d.size ≡ k

start-Holds : {d : StreamDecoder} → IsIdle d → Holds (feed d 183).0 1
start-Holds {d} h = record {
  valid = feed-IsValid 183 (omega arith) h.valid;
  taken =
      ap (λ (p : StreamDecoder × StreamResult). p.0.size) (feed-start 183 h.valid h.empty refl)
      ∙ omega (arith, h.empty);
}

header-Holds :
    {d : StreamDecoder} {k : ℕ} (b : ℕ)
    → b < 256
    → 1 ≤ k
    → k ≤ 5
    → (k ≢ 1) ⊎ (b ≡ 1)
    → Holds d k
    → Holds (feed d b).0 (k + 1)
header-Holds {d} {k} b small lo hi ok h = record {
  valid = feed-IsValid b small h.valid;
  taken =
      ap (λ (p : StreamDecoder × StreamResult). p.0.size)
        (feed-header_byte b h.valid (omega (arith, h.taken)) (omega (arith, h.taken))
          (subst (λ j. (j ≢ 1) ⊎ (b ≡ 1)) (sym h.taken) ok))
      ∙ omega (arith, h.taken);
}

-- A refused byte that is not the magic byte leaves nothing.
refused :
    {d : StreamDecoder} {b : ℕ} {e : DecodeError}
    → b < 256
    → b ≢ 183
    → IsValid d
    → feed d b ≡ fail (stored d b) e b
    → IsIdle (feed d b).0 × ((feed d b).1 ≡ error_result e)
unfolding fail reset
refused {d} {b} {e} small plain v step = (
  record {
    valid = feed-IsValid b small v;
    empty = ground (arith, ap (λ (p : StreamDecoder × StreamResult). p.0.size) step);
  },
  ap (λ (p : StreamDecoder × StreamResult). p.1) step,
)

pub unsupported-Ends :
    {d : StreamDecoder} → IsIdle d → Ends d unsupported_bytes (error_result unsupported_version)
unfolding feed_bytes
unsupported-Ends {d} h =
    let one = start-Holds h in
    let out =
      refused (omega arith) (omega arith) one.valid
        (feed-wrong_version 2 one.valid one.taken (omega arith)) in
    record { idle = out.0; last = out.1 }

pub oversized-Ends :
    {d : StreamDecoder} → IsIdle d → Ends d oversized_payload (error_result payload_too_large)
unfolding feed_bytes
oversized-Ends {d} h =
    let one = start-Holds h in
    let two = header-Holds 1 (omega arith) (omega arith) (omega arith) (inr refl) one in
    let three = header-Holds 2 (omega arith) (omega arith) (omega arith) (inl (omega arith)) two in
    let four = header-Holds 0 (omega arith) (omega arith) (omega arith) (inl (omega arith)) three in
    let five = header-Holds 5 (omega arith) (omega arith) (omega arith) (inl (omega arith)) four in
    let six = header-Holds 24 (omega arith) (omega arith) (omega arith) (inl (omega arith)) five in
    let out =
      refused (omega arith) (omega arith) six.valid
        (feed-too_large 33 six.valid six.taken (omega arith)) in
    record { idle = out.0; last = out.1 }
