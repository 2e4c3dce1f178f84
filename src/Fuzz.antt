-- ===== src/Fuzz.antt =====
-- tests/fuzz_frame_decoder.cpp: the fuzz target of the strict and the stream decoder.
pub mod Laws
use picomesh.Base.{ℕ, zero, suc, ◌+◌, ◌≤◌, ◌≡◌, Bool, true, false, not, ◌&&◌, ◌||◌}
use picomesh.Base.{Option, none, some, Pointer, AllBytes, length, get_or, ltb, ◌==◌, if◌then◌else◌}
use picomesh.Frame.{
  Frame, is_ok, frame_length_from_prefix, encode_frame, decode_frame, decode_encoded,
  max_encoded_frame_size,
}
use picomesh.StreamDecoder.{
  StreamDecoder, StreamStatus, frame_ready, new_decoder, buffered_size, reset, feed,
}

-- What libFuzzer passes: bytes that are there, or null for none.
abbrev pub IsInput : Pointer → ℕ → Type 0
IsInput none size = size ≡ 0
IsInput (some bytes) size = AllBytes bytes × (size ≤ length bytes)

-- `left` bytes from `i` on agree.
unfoldable pub payloads_equal : ℕ → ℕ → Frame → Frame → Bool
payloads_equal zero i left_frame right_frame = true
payloads_equal (suc left) i left_frame right_frame =
    let rest = payloads_equal left (i + 1) left_frame right_frame in
    if not (get_or left_frame.payload i 0 == get_or right_frame.payload i 0) then false else rest

unfoldable pub frames_equal : Frame → Frame → Bool
unfolding payloads_equal
frames_equal left right =
    if not (left.type == right.type)
      || not (left.flags == right.flags)
      || not (left.node_id == right.node_id)
      || not (left.sequence == right.sequence)
      || not (left.payload_length == right.payload_length)
    then false
    else payloads_equal left.payload_length 0 left right

-- An accepted frame, encoded and decoded once more, is accepted and is the same frame.
unfoldable pub round_trip_holds : Frame → Bool
unfolding frames_equal
round_trip_holds f =
    let round_trip = decode_encoded (encode_frame f) in
    not (not (is_ok round_trip) || not (frames_equal f round_trip.frame))

-- `data[i]`
unfoldable pub byte_at : Pointer → ℕ → ℕ
byte_at none i = 0
byte_at (some bytes) i = get_or bytes i 0

-- A frame that is delivered is accepted by the strict decoder once it is encoded.
unfoldable pub delivery_holds : StreamStatus → Frame → Bool
delivery_holds frame_ready f = is_ok (decode_encoded (encode_frame f))
delivery_holds _ f = true

-- The loop over the bytes; `none` is `invariant_failure`, which does not return.
unfoldable pub feed_bytes : ℕ → ℕ → Pointer → StreamDecoder → Option StreamDecoder
unfolding byte_at delivery_holds
feed_bytes zero i p stream = some stream
feed_bytes (suc left) i p stream =
    let (stream', result) = feed stream (byte_at p i) in
    let rest = feed_bytes left (i + 1) p stream' in
    if ltb max_encoded_frame_size (buffered_size stream')
    then none
    else if not (delivery_holds result.status result.frame)
    then none
    else rest

-- What stands behind the loop.
unfoldable pub finish : Option StreamDecoder → Option ℕ
finish none = none
finish (some stream) = if not (buffered_size (reset stream) == 0) then none else some 0

unfoldable pub llvm_fuzzer_test_one_input : Pointer → ℕ → Option ℕ
unfolding round_trip_holds feed_bytes finish
llvm_fuzzer_test_one_input p size =
    let exact = decode_frame p size in
    let prefix_length = frame_length_from_prefix p size in
    if ltb size prefix_length || ltb max_encoded_frame_size prefix_length
    then none
    else if is_ok exact && (not (prefix_length == size) || not (round_trip_holds exact.frame))
    then none
    else finish (feed_bytes size 0 p new_decoder)
