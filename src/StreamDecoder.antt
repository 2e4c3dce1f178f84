-- ===== src/StreamDecoder.antt =====
-- include/picomesh/stream_decoder.h and src/stream_decoder.cpp: frames out of a byte stream.
pub mod Step
pub mod Invariant
pub mod Delivery
pub mod Stream
pub mod Recovery
pub mod Segments
use picomesh.Base.{ℕ, ◌+◌, ◌≡◌, List, [], ◌∷◌, Bool, true, false, not, ◌&&◌, some}
use picomesh.Base.{get_or, set, replicate, ltb, leb, ◌==◌, if◌then◌else◌}
use picomesh.Frame.{
  Frame, DecodeError, DecodeResult, bad_magic, unsupported_version, payload_too_large,
  length_mismatch, decode_frame, default_frame, is_ok, frame_magic, protocol_version,
  max_payload_size, frame_header_size, frame_overhead, max_encoded_frame_size,
}

pub data StreamStatus : Type 0 where
  need_more frame_ready frame_error discarded : StreamStatus

pub record StreamResult : Type 0 where
  pub status : StreamStatus
  pub frame : Frame
  pub error : DecodeError

pub record StreamDecoder : Type 0 where
  pub buffer : List ℕ
  pub size : ℕ
  pub expected_length : ℕ

-- `StreamDecoder{}`
abbrev pub new_decoder : StreamDecoder
new_decoder = record { buffer = replicate max_encoded_frame_size 0; size = 0; expected_length = 0 }

-- `StreamResult{}`
abbrev pub pending : StreamResult
pending = record { status = need_more; frame = default_frame; error = DecodeError.none }

abbrev pub error_result : DecodeError → StreamResult
error_result e = record { status = frame_error; frame = default_frame; error = e }

unfoldable pub buffered_size : StreamDecoder → ℕ
buffered_size d = d.size

unfoldable pub reset : StreamDecoder → StreamDecoder
reset d = record d { size = 0; expected_length = 0 }

-- A last byte that is the magic byte starts the next candidate.
unfoldable pub fail : StreamDecoder → DecodeError → ℕ → StreamDecoder × StreamResult
unfolding reset
fail d error last_byte =
    let cleared = reset d in
    (
      if last_byte == frame_magic
          then record cleared { buffer = set cleared.buffer 0 last_byte; size = 1 }
          else cleared,
      error_result error,
    )

unfoldable pub decoded_result : DecodeResult → StreamResult
unfolding is_ok
decoded_result decoded =
    if not (is_ok decoded)
    then error_result decoded.error
    else record { status = frame_ready; frame = decoded.frame; error = DecodeError.none }

-- The end of `feed`: a candidate that has reached its length is decoded.
unfoldable pub complete : StreamDecoder → StreamDecoder × StreamResult
unfolding reset decoded_result
complete d =
    if not (d.expected_length == 0) && (d.size == d.expected_length)
    then (reset d, decoded_result (decode_frame (some d.buffer) d.size))
    else (d, pending)

-- `feed` once the byte is stored: the header is checked as it arrives.
unfoldable pub check_header : StreamDecoder → ℕ → StreamDecoder × StreamResult
unfolding fail complete
check_header d byte =
    if (d.size == 2) && not (get_or d.buffer 1 0 == protocol_version)
    then fail d unsupported_version byte
    else if d.size == frame_header_size
    then (let payload_length = get_or d.buffer 6 0 in
        if ltb max_payload_size payload_length
        then fail d payload_too_large byte
        else complete (record d { expected_length = frame_overhead + payload_length }))
    else complete d

unfoldable pub feed : StreamDecoder → ℕ → StreamDecoder × StreamResult
unfolding fail check_header
feed d byte =
    if d.size == 0
    then if not (byte == frame_magic)
      then (d, record { status = discarded; frame = default_frame; error = bad_magic })
      else (record d { buffer = set d.buffer d.size byte; size = d.size + 1 }, pending)
    else if leb max_encoded_frame_size d.size
    then fail d length_mismatch byte
    else check_header (record d { buffer = set d.buffer d.size byte; size = d.size + 1 }) byte

-- A stream of bytes, fed one by one, with the result of each.
unfoldable pub feed_all : StreamDecoder → List ℕ → StreamDecoder × List StreamResult
feed_all d [] = (d, [])
feed_all d (b ∷ bs) = let (d', r) = feed d b in let (d'', rs) = feed_all d' bs in (d'', r ∷ rs)
