-- ===== src/Frame/Prefix.antt =====
-- `frame_length_from_prefix`, which strips what a fixed-size read pads behind a frame.
use picomesh.Base.{ℕ, ◌≤◌, ◌≡◌, List, ◌++◌}
use picomesh.Base.{arith, some, none, length, leb, if◌then◌else◌, Pointer}
use picomesh.Frame.{
  Frame, IsFrame, DecodeError, decode_frame, frame_length_from_prefix, max_encoded_frame_size,
}
use picomesh.Frame.Wire.{wire, length-wire}
use picomesh.Frame.Decode.{Accepts-of_decode_frame, sent, decode_frame-wire}

-- A length that is found lies within the bytes read and within the largest frame.
pub frame_length_from_prefix_bounds :
    (p : Pointer) (available : ℕ)
    → (frame_length_from_prefix p available ≤ available)
      × (frame_length_from_prefix p available ≤ max_encoded_frame_size)
unfolding frame_length_from_prefix
frame_length_from_prefix_bounds none available = omega arith
frame_length_from_prefix_bounds (some bytes) available = ground arith

-- In a read of a frame with any padding behind it, the length of the frame is found exactly once
-- all of the frame is available, and zero before that; the frame cut out at that length decodes
-- to the frame that was sent.
pub frame_length_from_prefix-wire :
    {f : Frame} (padding : List ℕ) (available : ℕ)
    → IsFrame f
    → (frame_length_from_prefix (some (wire f ++ padding)) available
        ≡ (if leb (length (wire f)) available then length (wire f) else 0))
      × (decode_frame (some (wire f ++ padding)) (length (wire f))
          ≡ record { frame = sent f; error = DecodeError.none })
unfolding frame_length_from_prefix
frame_length_from_prefix-wire {f} padding available v =
    (rw (length-wire v) (ground arith), decode_frame-wire padding v)

-- If the strict decoder accepts a buffer at a length within it, the prefix function finds exactly
-- that length, also if more bytes are available.
pub frame_length_from_prefix-decode :
    (bytes : List ℕ) (count available : ℕ)
    → count ≤ length bytes
    → count ≤ available
    → (decode_frame (some bytes) count).error ≡ DecodeError.none
    → frame_length_from_prefix (some bytes) available ≡ count
unfolding frame_length_from_prefix
frame_length_from_prefix-decode bytes count available fits le e =
    ground (arith, Accepts-of_decode_frame bytes count fits e)
