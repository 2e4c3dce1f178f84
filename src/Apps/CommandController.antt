-- ===== src/Apps/CommandController.antt =====
-- examples/ArduinoReliableCommandController: a controller that sends commands until they are
-- acknowledged, over any transport.
pub mod Laws
pub mod Transmission
use picomesh.Base.{ℕ, ◌+◌, Bool, not, ◌&&◌, ◌||◌, some, replicate}
use picomesh.Base.{◌==◌, leb, if◌then◌else◌, set, u8, sub32, Pointer}
use picomesh.Frame.{
  Frame, command, acknowledgement, default_frame, encode_frame, decode_frame, is_ok, DecodeResult,
  max_encoded_frame_size,
}
use picomesh.Ack.{malformed, parse_ack_frame}
use picomesh.ReliableQueue.{
  ReliableQueue, TxAction, TxDecision, new_queue, enqueue, next_due, acknowledge, pending_count,
}
use picomesh.Transport.{Transport}

unfoldable pub command_frame : ℕ → Frame
command_frame sequence = record default_frame {
  type = command;
  node_id = 0;
  sequence = sequence;
  payload_length = 2;
  payload = set (set default_frame.payload 0 0x01) 1 0x01;
}

-- The end of `receiveAcknowledgement`, once bytes have been received and decoded.
unfoldable pub resolve : ReliableQueue → DecodeResult → ReliableQueue
resolve q decoded =
    if not (is_ok decoded) || not (decoded.frame.type == acknowledgement)
    then q
    else let (parsed, acknowledged_sequence, status) = parse_ack_frame decoded.frame 0 malformed in
      if not parsed then q else (acknowledge q decoded.frame.node_id acknowledged_sequence status).0

module _ (T : Transport) where
  -- The global variables.
  pub record Controller : Type 0 where
    pub transport : T.State
    pub queue : ReliableQueue
    pub sequence_number : ℕ
    pub last_command_ms : ℕ
    pub last_receive_ms : ℕ

  abbrev pub new_controller : T.State → Controller
  new_controller transport = record {
    transport = transport;
    queue = new_queue (record { timeout_ms = 250; max_attempts = 3 });
    sequence_number = 0;
    last_command_ms = 0;
    last_receive_ms = 0;
  }

  -- Also all that `setup` does but for the start of the bus.
  unfoldable pub enqueue_command : Controller → ℕ → Controller
  enqueue_command c now = record c {
    queue = (enqueue c.queue (command_frame c.sequence_number) now).0;
    sequence_number = u8 (c.sequence_number + 1);
  }

  unfoldable pub send_frame : Controller → Frame → Controller
  send_frame c frame =
      let encoded = encode_frame frame in
      record c { transport = (T.send c.transport (some encoded.bytes) encoded.active).0 }

  unfoldable pub transmit_due : Controller → ℕ → Controller
  unfolding send_frame
  transmit_due c now =
      let (queue, decision) = next_due c.queue now in
      let decided = record c { queue = queue } in
      elim decision.action [
        | TxAction.none ↦ decided
        | TxAction.exhausted ↦ decided
        | TxAction.send ↦ send_frame decided decision.frame
      ]

  unfoldable pub receive_acknowledgement : Controller → Controller
  unfolding resolve
  receive_acknowledgement c =
      let bytes = replicate max_encoded_frame_size 0 in
      let (transport, buffer, count) = T.receive c.transport (some bytes) max_encoded_frame_size in
      record c { transport = transport; queue = resolve c.queue (decode_frame buffer count) }

  -- A new command when none is pending and 5 s have passed.
  unfoldable pub renew : Controller → ℕ → Controller
  renew c now =
      if (pending_count c.queue == 0) && leb 5000 (sub32 now c.last_command_ms)
      then enqueue_command (record c { last_command_ms = now }) now
      else c

  unfoldable pub loop : Controller → ℕ → Controller
  loop c now =
      let transmitted = transmit_due (renew c now) now in
      if leb 20 (sub32 now transmitted.last_receive_ms)
      then receive_acknowledgement (record transmitted { last_receive_ms = now })
      else transmitted
