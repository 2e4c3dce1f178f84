-- ===== src/Fuzz/Laws.antt =====
-- The fuzz target never fails.
use picomesh.Base.{ℕ, zero, suc, ◌+◌, ◌≤◌, ◌<◌, ◌≡◌, refl, ◌∙◌, ap, arith}
use picomesh.Base.{List, length, AllBytes, true, false, none, some, Pointer, AllBytes-get_or}
use picomesh.Frame.{
  Frame, DecodeError, DecodeResult, is_ok, encode_frame, decode_frame, decode_encoded,
  frame_length_from_prefix,
}
use picomesh.Frame.Decode.{decode-encode}
use picomesh.Frame.Accepted.{IsCanonical}
use picomesh.Frame.Result.{decode_frame-IsCanonical, is_ok-error}
use picomesh.Frame.Prefix.{frame_length_from_prefix_bounds, frame_length_from_prefix-decode}
use picomesh.StreamDecoder.{
  StreamDecoder, StreamStatus, frame_ready, need_more, frame_error, discarded, new_decoder,
  buffered_size, reset, feed,
}
use picomesh.StreamDecoder.Step.{IsValid, new_decoder-IsValid}
use picomesh.StreamDecoder.Invariant.{feed-IsValid}
use picomesh.StreamDecoder.Stream.{feed-IsDelivery}
use picomesh.Fuzz.{
  IsInput, payloads_equal, frames_equal, round_trip_holds, byte_at, delivery_holds, feed_bytes,
  finish, llvm_fuzzer_test_one_input,
}

payloads_equal_self : (left i : ℕ) (f : Frame) → payloads_equal left i f f ≡ true
unfolding payloads_equal
payloads_equal_self zero i f = refl
payloads_equal_self (suc left) i f = ground (arith, payloads_equal_self left (i + 1) f)

frames_equal_self : (f : Frame) → frames_equal f f ≡ true
unfolding frames_equal
frames_equal_self f = ground (arith, payloads_equal_self f.payload_length 0 f)

again :
    {f : Frame}
    → IsCanonical f
    → decode_encoded (encode_frame f) ≡ record { frame = f; error = DecodeError.none }
again c =
    decode-encode c.frame ∙ ap (λ g. record { frame = g; error = DecodeError.none }) c.canonical

round_trip_holds-IsCanonical : {f : Frame} → IsCanonical f → round_trip_holds f ≡ true
unfolding round_trip_holds is_ok
round_trip_holds-IsCanonical {f} c = rw (again c) (rw (frames_equal_self f) refl)

byte_at-lt : (p : Pointer) (size i : ℕ) → IsInput p size → byte_at p i < 256
unfolding byte_at
byte_at-lt none size i h = omega arith
byte_at-lt (some bytes) size i h = AllBytes-get_or bytes i h.0

delivery_holds-ready :
    (s : StreamStatus) (f : Frame) → (s ≡ frame_ready → IsCanonical f) → delivery_holds s f ≡ true
unfolding delivery_holds is_ok
delivery_holds-ready frame_ready f ok = rw (again (ok refl)) refl
delivery_holds-ready need_more f ok = refl
delivery_holds-ready frame_error f ok = refl
delivery_holds-ready discarded f ok = refl

module _ (p : Pointer) (size : ℕ) (input : IsInput p size) where
  feed_bytes-some :
      (left i : ℕ) (d : StreamDecoder)
      → IsValid d
      → (d' : StreamDecoder) × (feed_bytes left i p d ≡ some d')
  unfolding feed_bytes buffered_size
  feed_bytes-some zero i d v = (d, refl)
  feed_bytes-some (suc left) i d v =
      let lt = byte_at-lt p size i input in
      let v' = feed-IsValid (byte_at p i) lt v in
      let later = feed_bytes-some left (i + 1) (feed d (byte_at p i)).0 v' in
      let holds =
        delivery_holds-ready (feed d (byte_at p i)).1.status (feed d (byte_at p i)).1.frame
          (λ e. (feed-IsDelivery v lt e).0) in
      (later.0, ground (arith, holds, v'.header, later.1))

exact_holds :
    (bytes : List ℕ) (size : ℕ)
    → AllBytes bytes
    → size ≤ length bytes
    → is_ok (decode_frame (some bytes) size) ≡ true
    → (frame_length_from_prefix (some bytes) size ≡ size)
      × (round_trip_holds (decode_frame (some bytes) size).frame ≡ true)
exact_holds bytes size all fits ok = (
  frame_length_from_prefix-decode bytes size size fits (omega arith)
      (ap (λ (r : DecodeResult). r.error) (is_ok-error (decode_frame (some bytes) size) ok)),
  round_trip_holds-IsCanonical (decode_frame-IsCanonical bytes size all fits),
)

finish-feed_bytes :
    (p : Pointer) (size : ℕ) → IsInput p size → finish (feed_bytes size 0 p new_decoder) ≡ some 0
unfolding finish reset buffered_size
finish-feed_bytes p size input =
    rw (feed_bytes-some p size input size 0 new_decoder new_decoder-IsValid).1 refl

null_refused : (size : ℕ) → is_ok (decode_frame none size) ≡ false
unfolding decode_frame is_ok
null_refused size = refl

-- Whatever bytes the fuzz target is given, with a size within them, or null with size 0, it
-- returns 0: none of its invariants fails.
pub llvm_fuzzer_test_one_input-some :
    (p : Pointer) (size : ℕ) → IsInput p size → llvm_fuzzer_test_one_input p size ≡ some 0
unfolding llvm_fuzzer_test_one_input
llvm_fuzzer_test_one_input-some none size input = ground (
  arith,
  frame_length_from_prefix_bounds none size,
  null_refused size,
  finish-feed_bytes none size input,
)
llvm_fuzzer_test_one_input-some (some bytes) size input = ground (
  arith,
  frame_length_from_prefix_bounds (some bytes) size,
  exact_holds bytes size input.0 input.1,
  finish-feed_bytes (some bytes) size input,
)
