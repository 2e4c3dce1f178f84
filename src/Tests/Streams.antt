-- ===== src/Tests/Streams.antt =====
-- The stream decoder on concrete streams.
use picomesh.Base.{some, ℕ, ◌≡◌, ◌≢◌, refl, inl, inr, List, [], ◌∷◌, ◌++◌, arith}
use picomesh.Base.{replicate, take}
use picomesh.Checksum.{verify_checksum8}
use picomesh.Base.{copy_n}
use picomesh.Frame.{Frame, IsFrame, default_frame, DecodeError, unsupported_version, decode_frame}
use picomesh.Frame.Wire.{wire}
use picomesh.StreamDecoder.{
  StreamDecoder, frame_error, discarded, new_decoder, feed, feed_all, pending,
}
use picomesh.StreamDecoder.Step.{IsValid, new_decoder-IsValid}
use picomesh.StreamDecoder.Delivery.{ready, feed_error-frame}
use picomesh.StreamDecoder.Segments.{Segments, feed_all-Segments}
use picomesh.Fuzz.{llvm_fuzzer_test_one_input}
use picomesh.Fuzz.Laws.{llvm_fuzzer_test_one_input-some}
use picomesh.StreamDecoder.Recovery.{frames_of, stream_of, feed_all-stream_of}

abbrev beat : Frame
beat = record default_frame { node_id = 3; sequence = 1 }

abbrev beat_bytes : List ℕ
beat_bytes = 0xB7 ∷ 1 ∷ 1 ∷ 0 ∷ 3 ∷ 1 ∷ 0 ∷ 67 ∷ []

beat-IsFrame : IsFrame beat
beat-IsFrame = omega arith

beat_on_the_wire : wire beat ≡ beat_bytes
beat_on_the_wire = refl

-- After the magic byte.
abbrev one_byte : StreamDecoder
one_byte = record { buffer = 0xB7 ∷ replicate 39 0; size = 1; expected_length = 0 }

one_byte-IsValid : IsValid one_byte
one_byte-IsValid = record {
  storage = refl;
  bytes = omega arith;
  magic = inr refl;
  version = inl (omega arith);
  header = inl (omega arith, refl);
}

-- Before the last byte of the heartbeat.
abbrev seven_bytes : StreamDecoder
seven_bytes = record {
  buffer = 0xB7 ∷ 1 ∷ 1 ∷ 0 ∷ 3 ∷ 1 ∷ 0 ∷ replicate 33 0;
  size = 7;
  expected_length = 8;
}

seven_bytes-IsValid : IsValid seven_bytes
seven_bytes-IsValid = record {
  storage = refl;
  bytes = omega arith;
  magic = inr refl;
  version = inr refl;
  header = inr (omega arith, omega arith, refl, omega arith);
}

-- An unsupported version is reported, and the magic byte behind it starts the next frame.
version_error :
    (feed_all new_decoder (0x00 ∷ 0xB7 ∷ 0x02 ∷ beat_bytes)).1
    ≡ record { status = discarded; frame = default_frame; error = DecodeError.bad_magic }
      ∷ pending
      ∷ record { status = frame_error; frame = default_frame; error = unsupported_version }
      ∷ (replicate 7 pending ++ ready beat ∷ [])
unfolding feed_all feed decode_frame copy_n verify_checksum8
version_error = refl

feed_error-frame_example : take 1 one_byte.buffer ++ 2 ∷ [] ≢ take 2 (wire beat)
unfolding feed
feed_error-frame_example =
    feed_error-frame beat-IsFrame one_byte 2 one_byte-IsValid refl (omega arith)

feed_all-stream_of_example :
    (frames_of (feed_all new_decoder (stream_of ((0 ∷ 1 ∷ [], beat) ∷ ([], beat) ∷ []))).1
      ≡ beat ∷ beat ∷ [])
    × ((feed_all new_decoder (stream_of ((0 ∷ 1 ∷ [], beat) ∷ ([], beat) ∷ []))).0.size ≡ 0)
feed_all-stream_of_example =
    feed_all-stream_of new_decoder ((0 ∷ 1 ∷ [], beat) ∷ ([], beat) ∷ []) new_decoder-IsValid refl
      ((omega arith, (omega arith, tt)), beat-IsFrame, (tt, beat-IsFrame, tt))

-- The heartbeat as the input of the fuzz target.
llvm_fuzzer_test_one_input-some_example : llvm_fuzzer_test_one_input (some beat_bytes) 8 ≡ some 0
llvm_fuzzer_test_one_input-some_example =
    llvm_fuzzer_test_one_input-some (some beat_bytes) 8 (omega arith)

-- A heartbeat behind a lone magic byte, which makes the decoder drop two bytes.
feed_all-Segments_example :
    Segments (0xB7 ∷ 0 ∷ beat_bytes) (frames_of (feed_all new_decoder (0xB7 ∷ 0 ∷ beat_bytes)).1)
feed_all-Segments_example = feed_all-Segments (0xB7 ∷ 0 ∷ beat_bytes) (omega arith)
