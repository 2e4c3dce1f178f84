-- ===== src/Tests/Codec.antt =====
-- The codec on the vectors of docs/protocol_vectors.md.
use picomesh.Base.{ℕ, ◌≡◌, ◌≢◌, ◌↔◌, refl, List, [], ◌∷◌, ◌++◌, true, false, some, none, arith}
use picomesh.Base.{replicate, take, get_or, set, copy_n}
use picomesh.Checksum.{checksum8, verify_checksum8}
use picomesh.Frame.{
  Frame, IsFrame, command, default_frame, DecodeError, too_short, bad_magic, unsupported_version,
  payload_too_large, length_mismatch, bad_checksum, encode_frame, encode_header, decode_frame,
  decode_encoded,
}
use picomesh.Frame.Wire.{wire}
use picomesh.Frame.Decode.{decode-encode}
use picomesh.Frame.Accepted.{IsCanonical, decode_frame_iff}
use picomesh.Frame.Corruption.{decode_frame-set}
use picomesh.Ack.{accepted, busy, make_ack_frame, parse_ack_frame, status_code}
use picomesh.Ack.Laws.{parse_ack_frame_iff}
use mathlib.Core.Logic.{◌⊎◌}

abbrev sample : Frame
sample = record default_frame {
  type = command;
  flags = 1;
  node_id = 7;
  sequence = 42;
  payload = 0x10 ∷ 0x20 ∷ 0x30 ∷ replicate 29 0;
  payload_length = 3;
}

abbrev vector : List ℕ
vector = 0xB7 ∷ 0x01 ∷ 0x10 ∷ 0x01 ∷ 0x07 ∷ 0x2A ∷ 0x03 ∷ 0x10 ∷ 0x20 ∷ 0x30 ∷ 0xA3 ∷ []

sample-IsFrame : IsFrame sample
sample-IsFrame = omega arith

encode_vector : take 11 (encode_frame sample).bytes ≡ vector
unfolding encode_frame encode_header copy_n checksum8
encode_vector = refl

heartbeat_vector :
    take 8 (encode_frame default_frame).bytes
    ≡ 0xB7 ∷ 0x01 ∷ 0x01 ∷ 0x00 ∷ 0x00 ∷ 0x00 ∷ 0x00 ∷ 0x47 ∷ []
unfolding encode_frame encode_header copy_n checksum8
heartbeat_vector = refl

acknowledgement_vector :
    take 10 (encode_frame (make_ack_frame 7 43 42 accepted)).bytes
    ≡ 0xB7 ∷ 0x01 ∷ 0x11 ∷ 0x00 ∷ 0x07 ∷ 0x2B ∷ 0x02 ∷ 0x2A ∷ 0x00 ∷ 0xD9 ∷ []
unfolding make_ack_frame encode_frame encode_header copy_n checksum8
acknowledgement_vector = refl

decode_vector : decode_frame (some vector) 11 ≡ record { frame = sample; error = DecodeError.none }
unfolding decode_frame copy_n verify_checksum8
decode_vector = refl

decode_errors :
    ((decode_frame none 0).error ≡ too_short)
    × ((decode_frame (some (set vector 0 0)) 11).error ≡ bad_magic)
    × ((decode_frame (some (set vector 1 2)) 11).error ≡ unsupported_version)
    × ((decode_frame (some (set vector 6 33)) 11).error ≡ payload_too_large)
    × ((decode_frame (some vector) 10).error ≡ length_mismatch)
    × ((decode_frame (some (set vector 2 0x11)) 11).error ≡ bad_checksum)
unfolding decode_frame verify_checksum8
decode_errors = (refl, refl, refl, refl, refl, refl)

decode-encode_example :
    decode_encoded (encode_frame sample) ≡ record { frame = sample; error = DecodeError.none }
decode-encode_example = decode-encode sample-IsFrame

decode_frame_iff_example :
    (decode_frame (some vector) 11 ≡ record { frame = sample; error = DecodeError.none })
    ↔ (IsCanonical sample × (vector ≡ wire sample))
decode_frame_iff_example = decode_frame_iff vector 11 sample (omega arith) (omega arith)

decode_frame-set_example :
    (decode_frame (some (set (wire sample ++ []) 5 43)) 11).error ≢ DecodeError.none
decode_frame-set_example =
    decode_frame-set [] 5 43 sample-IsFrame (omega arith) (omega arith) (omega arith)

parse_ack_frame_iff_example :
    ((parse_ack_frame sample 0 accepted ≡ (true, 16, busy)) ↔ (
      (sample.type ≡ 0x11)
      × (sample.payload_length ≡ 2)
      × (get_or sample.payload 0 0 ≡ 16)
      × (get_or sample.payload 1 0 ≡ status_code busy)))
    × (((parse_ack_frame sample 0 accepted).0 ≡ true)
        ⊎ (parse_ack_frame sample 0 accepted ≡ (false, 0, accepted)))
parse_ack_frame_iff_example = parse_ack_frame_iff sample 0 16 accepted busy
