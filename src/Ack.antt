-- ===== src/Ack.antt =====
-- include/picomesh/reliability.h and src/reliability.cpp: acknowledgement frames.
pub mod Laws
use picomesh.Base.{ℕ, ◌≡◌, List, Bool, true, false, not, ◌||◌, get_or, set}
use picomesh.Base.{ltb, ◌==◌, if◌then◌else◌}
use picomesh.Frame.{Frame, default_frame, acknowledgement}

abbrev pub flag_ack_required : ℕ
flag_ack_required = 0x01

pub data AckStatus : Type 0 where
  accepted rejected busy unsupported malformed : AckStatus

-- `static_cast<uint8_t>(status)`
unfoldable pub status_code : AckStatus → ℕ
status_code accepted = 0
status_code rejected = 1
status_code busy = 2
status_code unsupported = 3
status_code malformed = 4

-- `static_cast<AckStatus>(raw)`, which the program does only at `raw` up to 4.
unfoldable pub status_of_code : ℕ → AckStatus
status_of_code raw =
    if raw == 0
    then accepted
    else if raw == 1
    then rejected
    else if raw == 2
    then busy
    else if raw == 3
    then unsupported
    else malformed

unfoldable pub make_ack_frame : ℕ → ℕ → ℕ → AckStatus → Frame
unfolding status_code
make_ack_frame node_id response_sequence acknowledged_sequence status = record default_frame {
  type = acknowledgement;
  node_id = node_id;
  sequence = response_sequence;
  payload_length = 2;
  payload = set (set default_frame.payload 0 acknowledged_sequence) 1 (status_code status);
}

-- The two reference parameters are passed with what they hold before the call, and come back
-- behind the result.
unfoldable pub parse_ack_frame : Frame → ℕ → AckStatus → Bool × ℕ × AckStatus
unfolding status_code status_of_code
parse_ack_frame frame acknowledged_sequence status =
    if not (frame.type == acknowledgement) || not (frame.payload_length == 2)
    then (false, acknowledged_sequence, status)
    else (let raw_status = get_or frame.payload 1 0 in
        if ltb (status_code malformed) raw_status
        then (false, acknowledged_sequence, status)
        else (true, get_or frame.payload 0 0, status_of_code raw_status))
