-- ===== src/Ack/Laws.antt =====
-- Acknowledgements survive the wire, and nothing else passes for one.
use picomesh.Base.{ℕ, ◌≤◌, ◌<◌, ◌≡◌, ◌↔◌, ◌⊎◌, refl, ◌∙◌, ap, true, false, arith}
use picomesh.Base.{get_or, AllBytes-replicate}
use picomesh.Frame.{Frame, IsFrame, acknowledgement, encode_frame, decode_encoded, DecodeResult}
use picomesh.Frame.Decode.{sent, decode-encode}
use picomesh.Ack.{AckStatus, status_code, status_of_code, make_ack_frame, parse_ack_frame}

status_of_code-status_code : (s : AckStatus) → status_of_code (status_code s) ≡ s
unfolding status_of_code status_code
status_of_code-status_code s = ground arith

status_code-le : (s : AckStatus) → status_code s ≤ 4
unfolding status_code
status_code-le s = ground arith

pub make_ack_frame-IsFrame :
    (node response acknowledged : ℕ) (s : AckStatus)
    → node < 256
    → response < 256
    → acknowledged < 256
    → IsFrame (make_ack_frame node response acknowledged s)
unfolding make_ack_frame
make_ack_frame-IsFrame node response acknowledged s hn hr ha = record {
  type_byte = omega arith;
  flags_byte = omega arith;
  node_byte = hn;
  sequence_byte = hr;
  length_byte = omega arith;
  payload_size = refl;
  payload_bytes = (ha, (omega (arith, status_code-le s), AllBytes-replicate 30));
}

pub parse_ack_frame-sent :
    (node response acknowledged : ℕ) (s : AckStatus) (old : ℕ) (old_status : AckStatus)
    → parse_ack_frame (sent (make_ack_frame node response acknowledged s)) old old_status
      ≡ (true, acknowledged, s)
unfolding parse_ack_frame make_ack_frame
parse_ack_frame-sent node response acknowledged s old old_status = ground arith

-- An acknowledgement made from bytes and a status, encoded, decoded and parsed, gives back the
-- acknowledged sequence and the status, whatever the two out parameters held.
pub parse_ack_frame-make :
    (node response acknowledged : ℕ) (s : AckStatus) (old : ℕ) (old_status : AckStatus)
    → node < 256
    → response < 256
    → acknowledged < 256
    → parse_ack_frame
        (decode_encoded (encode_frame (make_ack_frame node response acknowledged s))).frame
        old
        old_status
      ≡ (true, acknowledged, s)
parse_ack_frame-make node response acknowledged s old old_status hn hr ha =
    ap (λ (r : DecodeResult). parse_ack_frame r.frame old old_status)
      (decode-encode (make_ack_frame-IsFrame node response acknowledged s hn hr ha))
    ∙ parse_ack_frame-sent node response acknowledged s old old_status

-- A frame is parsed as an acknowledgement of a sequence and a status exactly if it has the type,
-- two payload bytes, and these are the sequence and the code of the status; whenever parsing
-- fails, both out parameters are as before.
pub parse_ack_frame_iff :
    (f : Frame) (old a : ℕ) (old_status s : AckStatus)
    → ((parse_ack_frame f old old_status ≡ (true, a, s)) ↔ (
        (f.type ≡ acknowledgement)
        × (f.payload_length ≡ 2)
        × (get_or f.payload 0 0 ≡ a)
        × (get_or f.payload 1 0 ≡ status_code s)))
      × (((parse_ack_frame f old old_status).0 ≡ true)
          ⊎ (parse_ack_frame f old old_status ≡ (false, old, old_status)))
unfolding parse_ack_frame
parse_ack_frame_iff f old a old_status s = ground arith
