-- ===== src/Apps/MalformedLink.antt =====
-- examples/malformed_link_simulator.cpp: a decoder on a link with noise and broken frames.
pub mod Steps
pub mod WrongChecksum
pub mod Laws
use picomesh.Base.{ℕ, ◌+◌, ◌-◌, List, [], ◌∷◌, Bool, not, ◌&&◌, bit_xor}
use picomesh.Base.{◌==◌, if◌then◌else◌, get_or, set, take, u8}
use picomesh.Frame.{
  Frame, EncodedFrame, DecodeError, too_short, bad_magic, unsupported_version, payload_too_large,
  length_mismatch, bad_checksum, state, default_frame, encode_frame, frame_magic, protocol_version,
  max_payload_size,
}
use picomesh.StreamDecoder.{
  StreamDecoder, StreamStatus, need_more, frame_ready, frame_error, discarded, StreamResult,
  new_decoder, pending, feed,
}

-- `feed` of the program, from the result it has so far: at first `StreamResult{}`.
unfoldable pub feed_bytes : StreamDecoder → List ℕ → StreamResult → StreamDecoder × StreamResult
feed_bytes decoder [] result = (decoder, result)
feed_bytes decoder (b ∷ bytes) result =
    let (decoder, result) = feed decoder b in feed_bytes decoder bytes result

-- The enumerations as the numbers that they are compared by.
abbrev pub status_number : StreamStatus → ℕ
status_number need_more = 0
status_number frame_ready = 1
status_number frame_error = 2
status_number discarded = 3

abbrev pub error_number : DecodeError → ℕ
error_number DecodeError.none = 0
error_number too_short = 1
error_number bad_magic = 2
error_number unsupported_version = 3
error_number payload_too_large = 4
error_number length_mismatch = 5
error_number bad_checksum = 6

unfoldable pub expect : StreamResult → StreamStatus → DecodeError → Bool
expect result status error =
    (status_number result.status == status_number status)
    && (error_number result.error == error_number error)

-- `bad_checksum`: the lowest bit of the last byte is flipped.
unfoldable pub flip_last : EncodedFrame → EncodedFrame
flip_last e = record e {
  bytes = set e.bytes (e.active - 1) (bit_xor (get_or e.bytes (e.active - 1) 0) 0x01);
}

abbrev pub unsupported_bytes : List ℕ
unsupported_bytes = frame_magic ∷ u8 (protocol_version + 1) ∷ []

abbrev pub oversized_payload : List ℕ
oversized_payload =
    frame_magic ∷ protocol_version ∷ u8 state ∷ 0 ∷ 5 ∷ 24 ∷ u8 (max_payload_size + 1) ∷ []

-- The bytes of an encoded frame in use.
abbrev pub in_use : EncodedFrame → List ℕ
in_use e = take e.active e.bytes

-- `main` from the construction of the decoder on, for any frame, with its exit code.
unfoldable pub simulate : Frame → ℕ
simulate frame =
    let valid = encode_frame frame in
    let noise = feed new_decoder 0x00 in
    let first = feed_bytes noise.0 (in_use valid) pending in
    let corrupted = feed_bytes first.0 (in_use (flip_last valid)) pending in
    let second = feed_bytes corrupted.0 (in_use valid) pending in
    let unsupported = feed_bytes second.0 unsupported_bytes pending in
    let third = feed_bytes unsupported.0 (in_use valid) pending in
    let oversized = feed_bytes third.0 oversized_payload pending in
    let fourth = feed_bytes oversized.0 (in_use valid) pending in
    let ready_count : ℕ = 0 in
    let error_count : ℕ = 0 in
    if not (expect noise.1 discarded bad_magic)
    then 1
    else if not (expect first.1 frame_ready DecodeError.none)
    then 2
    else let ready_count = ready_count + 1 in
      if not (expect corrupted.1 frame_error bad_checksum)
      then 3
      else let error_count = error_count + 1 in
        if not (expect second.1 frame_ready DecodeError.none)
        then 4
        else let ready_count = ready_count + 1 in
          if not (expect unsupported.1 frame_error unsupported_version)
          then 5
          else let error_count = error_count + 1 in
            if not (expect third.1 frame_ready DecodeError.none)
            then 6
            else let ready_count = ready_count + 1 in
              if not (expect oversized.1 frame_error payload_too_large)
              then 7
              else let error_count = error_count + 1 in
                if not (expect fourth.1 frame_ready DecodeError.none)
                then 8
                else let ready_count = ready_count + 1 in
                  if (ready_count == 4) && (error_count == 3) then 0 else 9

-- The frame that `main` builds.
abbrev pub state_frame : Frame
state_frame = record default_frame {
  type = state;
  node_id = 5;
  sequence = 23;
  payload_length = 2;
  payload = set (set default_frame.payload 0 0x42) 1 0x99;
}
