-- ===== src/Apps/HostExamples.antt =====
-- examples/frame_codec_example.cpp, host_simulator.cpp and reliable_queue_example.cpp: `main` of
-- each, for any frame, with its exit code.
pub mod Laws
use picomesh.Base.{ℕ, Bool, true, false, not, ◌||◌}
use picomesh.Base.{◌==◌, if◌then◌else◌}
use picomesh.Base.{set}
use picomesh.Apps.LossyLink.{is_queued}
use picomesh.Frame.{
  state, heartbeat, command, default_frame, Frame, encode_frame, decode_encoded, is_ok,
}
use picomesh.Ack.{AckStatus}
use picomesh.NodeRegistry
use picomesh.NodeRegistry.{new_registry, refresh, online_count}
use picomesh.ReliableQueue.{
  RetryPolicy, QueueResult, queued, full, invalid, TxAction, AckResolution, accepted, rejected,
  not_found, new_queue, enqueue, next_due, acknowledge, pending_count,
}

unfoldable pub frame_codec : Frame → ℕ
frame_codec frame =
    let encoded = encode_frame frame in
    let decoded = decode_encoded encoded in
    if not (is_ok decoded)
    then 1
    else if not (decoded.frame.node_id == frame.node_id)
        || not (decoded.frame.sequence == frame.sequence)
        || not (decoded.frame.payload_length == frame.payload_length)
    then 2
    else 0

-- The exit code, and the two counts that are printed.
unfoldable pub host_simulator : Frame → ℕ × ℕ × ℕ
host_simulator heartbeat =
    let decoded = decode_encoded (encode_frame heartbeat) in
    if not (is_ok decoded)
    then (1, 0, 0)
    else let registry = new_registry 3000 in
      let heard =
        (NodeRegistry.observe registry decoded.frame.node_id decoded.frame.sequence 1000).0 in
      let first = refresh heard 2500 in
      let second = refresh first 4501 in (0, online_count first, online_count second)

abbrev pub is_send : TxAction → Bool
is_send TxAction.send = true
is_send TxAction.none = false
is_send TxAction.exhausted = false

abbrev pub is_none : TxAction → Bool
is_none TxAction.none = true
is_none TxAction.send = false
is_none TxAction.exhausted = false

abbrev pub is_accepted : AckResolution → Bool
is_accepted accepted = true
is_accepted rejected = false
is_accepted not_found = false

unfoldable pub reliable_queue : Frame → ℕ
reliable_queue frame =
    let queue = new_queue (record { timeout_ms = 100; max_attempts = 3 }) in
    let (queue, result) = enqueue queue frame 0 in
    let (queue, first) = next_due queue 0 in
    let (queue, early) = next_due queue 99 in
    let (queue, retry) = next_due queue 100 in
    let (queue, resolution) = acknowledge queue frame.node_id frame.sequence AckStatus.accepted in
    if not (is_queued result)
    then 1
    else if not (is_send first.action) || not (first.attempts == 1)
    then 2
    else if not (is_none early.action)
    then 3
    else if not (is_send retry.action) || not (retry.attempts == 2)
    then 4
    else if not (is_accepted resolution) || not (pending_count queue == 0)
    then 5
    else 0

-- The frames that the three programs build.
abbrev pub codec_frame : Frame
codec_frame = record default_frame {
  type = state;
  node_id = 4;
  sequence = 9;
  payload_length = 2;
  payload = set (set default_frame.payload 0 0x2a) 1 0x01;
}

abbrev pub host_heartbeat : Frame
host_heartbeat = record default_frame { type = heartbeat; node_id = 3; sequence = 1 }

abbrev pub queue_command : Frame
queue_command = record default_frame {
  type = command;
  node_id = 2;
  sequence = 11;
  payload_length = 1;
  payload = set default_frame.payload 0 0x55;
}
