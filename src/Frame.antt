-- ===== src/Frame.antt =====
-- include/picomesh/frame.h and src/frame.cpp: frames and the strict codec.
pub mod Wire
pub mod Decode
pub mod Accepted
pub mod Result
pub mod Prefix
pub mod Corruption
pub mod Buffers
use picomesh.Base.{ℕ, ◌+◌, ◌-◌, ◌≡◌, ◌≤◌, ◌<◌, min, List, Bool, true, false, not, ◌||◌, Option}
use picomesh.Base.{Pointer, u8, get_or, set, replicate, length, AllBytes, copy_n}
use picomesh.Base.{ltb, leb, ◌==◌, if◌then◌else◌}
use picomesh.Checksum.{checksum8, verify_checksum8}

abbrev pub frame_magic : ℕ
frame_magic = 0xB7

abbrev pub protocol_version : ℕ
protocol_version = 1

abbrev pub max_payload_size : ℕ
max_payload_size = 32

abbrev pub frame_header_size : ℕ
frame_header_size = 7

abbrev pub frame_overhead : ℕ
frame_overhead = 8

abbrev pub max_encoded_frame_size : ℕ
max_encoded_frame_size = 40

-- An `enum class` over `uint8_t` holds any byte: the named values are the protocol's own.
abbrev pub MessageType : Type 0
MessageType = ℕ

abbrev pub heartbeat : MessageType
heartbeat = 0x01

abbrev pub state : MessageType
state = 0x02

abbrev pub command : MessageType
command = 0x10

abbrev pub acknowledgement : MessageType
acknowledgement = 0x11

abbrev pub user : MessageType
user = 0x80

pub record Frame : Type 0 where
  pub type : MessageType
  pub flags : ℕ
  pub node_id : ℕ
  pub sequence : ℕ
  pub payload : List ℕ
  pub payload_length : ℕ

-- `Frame{}`
abbrev pub default_frame : Frame
default_frame = record {
  type = heartbeat;
  flags = 0;
  node_id = 0;
  sequence = 0;
  payload = replicate max_payload_size 0;
  payload_length = 0;
}

-- What the C++ types of the fields hold: bytes, and an array of 32 bytes.
pub record IsFrame (f : Frame) : Type 0 where
  pub type_byte : f.type < 256
  pub flags_byte : f.flags < 256
  pub node_byte : f.node_id < 256
  pub sequence_byte : f.sequence < 256
  pub length_byte : f.payload_length < 256
  pub payload_size : length f.payload ≡ max_payload_size
  pub payload_bytes : AllBytes f.payload

-- `active` is the source's `length`, the number of bytes in use.
pub record EncodedFrame : Type 0 where
  pub bytes : List ℕ
  pub active : ℕ

pub data DecodeError : Type 0 where
  none too_short bad_magic unsupported_version payload_too_large length_mismatch bad_checksum :
      DecodeError

pub record DecodeResult : Type 0 where
  pub frame : Frame
  pub error : DecodeError

-- `operator bool`
unfoldable pub is_ok : DecodeResult → Bool
is_ok r = elim r.error [ none ↦ true | _ ↦ false ]

abbrev pub failed : DecodeError → DecodeResult
failed e = record { frame = default_frame; error = e }

unfoldable pub frame_length_from_prefix : Pointer → ℕ → ℕ
frame_length_from_prefix Option.none available_length = 0
frame_length_from_prefix (Option.some bytes) available_length =
    if ltb available_length frame_header_size
    then 0
    else if not (get_or bytes 0 0 == frame_magic) || not (get_or bytes 1 0 == protocol_version)
    then 0
    else let payload_length = get_or bytes 6 0 in
      if ltb max_payload_size payload_length
      then 0
      else let expected_length = frame_overhead + payload_length in
        if leb expected_length available_length then expected_length else 0

-- The first seven bytes, stored one by one into zeroed storage.
unfoldable pub encode_header : Frame → ℕ → List ℕ
encode_header f payload_length =
    let bytes = replicate max_encoded_frame_size 0 in
    let bytes = set bytes 0 frame_magic in
    let bytes = set bytes 1 protocol_version in
    let bytes = set bytes 2 (u8 f.type) in
    let bytes = set bytes 3 f.flags in
    let bytes = set bytes 4 f.node_id in
    let bytes = set bytes 5 f.sequence in set bytes 6 (u8 payload_length)

unfoldable pub encode_frame : Frame → EncodedFrame
encode_frame f =
    let payload_length = min f.payload_length max_payload_size in
    let bytes =
      copy_n payload_length f.payload 0 (encode_header f payload_length) frame_header_size in
    let active = frame_overhead + payload_length in
    record {
      bytes = set bytes (active - 1) (checksum8 (Option.some bytes) (active - 1));
      active = active;
    }

-- The fields of an accepted buffer.
unfoldable pub decode_fields : List ℕ → ℕ → Frame
decode_fields bytes payload_length = record {
  type = get_or bytes 2 0;
  flags = get_or bytes 3 0;
  node_id = get_or bytes 4 0;
  sequence = get_or bytes 5 0;
  payload = copy_n payload_length bytes frame_header_size (replicate max_payload_size 0) 0;
  payload_length = u8 payload_length;
}

unfoldable pub decode_frame : Pointer → ℕ → DecodeResult
unfolding decode_fields
decode_frame Option.none count = failed too_short
decode_frame (Option.some bytes) count =
    if ltb count frame_overhead
    then failed too_short
    else if not (get_or bytes 0 0 == frame_magic)
    then failed bad_magic
    else if not (get_or bytes 1 0 == protocol_version)
    then failed unsupported_version
    else let payload_length = get_or bytes 6 0 in
      if ltb max_payload_size payload_length
      then failed payload_too_large
      else if not (count == frame_overhead + payload_length)
      then failed length_mismatch
      else if not (verify_checksum8 (Option.some bytes) count)
      then failed bad_checksum
      else record { frame = decode_fields bytes payload_length; error = none }

-- The overload for an `EncodedFrame`.
unfoldable pub decode_encoded : EncodedFrame → DecodeResult
unfolding decode_frame
decode_encoded e = decode_frame (Option.some e.bytes) e.active
