-- ===== src/Tests/Boards/System.antt =====
-- The controller and the node on one bus, through the first command.
use mathlib.Core.List.{Mem}
use picomesh.Base.{
  ℕ, ◌≡◌, ◌⊎◌, inl, refl, List, [], ◌∷◌, ◌++◌, Option, some, true, arith, AllBytes, copy_n,
}
use picomesh.Frame.{is_ok, frame_length_from_prefix, encode_frame, encode_header, decode_frame}
use picomesh.Frame.Wire.{wire}
use picomesh.Checksum.{checksum8, verify_checksum8}
use picomesh.Ack.{make_ack_frame, accepted, status_code, status_of_code, parse_ack_frame}
use picomesh.ReliableQueue.{
  Slot, acknowledge, free_slot, next_due, due_slot, deadline_reached, enqueue, has_pending,
  fill_slot, new_queue,
}
use picomesh.Arduino.Controller.Laws.{delivered}
use picomesh.Arduino.Endpoint.Exchange.{outgoing}
use picomesh.ReliableQueue.Pending.{pending}
use picomesh.Arduino.TwoWire.{TwoWire, drain, IsLawful}
use picomesh.Arduino.Controller.{send, receive, copy_available, WireControllerTransport, transport}
use picomesh.Apps.System.{System, initial, hears, answers, transmits, receives, Reach, here, next}
use picomesh.Apps.System.Safety.{Step-pending}
use picomesh.Apps.CommandController
use picomesh.Apps.CommandController.{
  transmit_due, receive_acknowledgement, enqueue_command, command_frame,
}
use picomesh.Apps.HeartbeatNode
use picomesh.Apps.HeartbeatNode.{loop, setup, beat, heartbeat_frame}
use picomesh.Apps.HeartbeatNode.Run.{acknowledged, IsOwn, hears as heard, loops, run, run-IsOwn}
use picomesh.Arduino.Endpoint.{
  poll, take_received, receive_all, publish, receive_from_isr, receive_loop,
}
use picomesh.Tests.Boards.Wire.{bus, bus-IsLawful, first_of, ask}
use picomesh.Tests.Boards.Apps.{start, command_script, command_script-AllBytes, first_command}

abbrev answer_script : ℕ → List ℕ
answer_script address = wire (make_ack_frame 0 1 0 accepted) ++ 0 ∷ 0 ∷ []

answer_script-AllBytes : (a : ℕ) → AllBytes (answer_script a)
unfolding make_ack_frame
answer_script-AllBytes a = omega arith

abbrev V : TwoWire
V = bus answer_script

abbrev W : TwoWire
W = bus command_script

abbrev answer-IsLawful : IsLawful V
answer-IsLawful = bus-IsLawful answer_script answer_script-AllBytes

command-IsLawful : IsLawful W
command-IsLawful = bus-IsLawful command_script command_script-AllBytes

abbrev wire_transport : WireControllerTransport V
wire_transport = record { wire = start; address = 0x42 }

abbrev start_state : System V W answer-IsLawful
start_state = initial V W answer-IsLawful wire_transport 10 5

-- The first command once it has been sent.
abbrev sent_once : Slot
sent_once = record { frame = first_command; active = true; attempts = 1; deadline_ms = 260 }

abbrev sent_state : System V W answer-IsLawful
sent_state = record start_state {
  controller = transmit_due (transport V) start_state.controller 10;
}

abbrev heard_state : System V W answer-IsLawful
heard_state = record sent_state {
  node = record sent_state.node {
    endpoint = (receive_from_isr W start sent_state.node.endpoint 10).1;
  };
}

abbrev answered_state : System V W answer-IsLawful
answered_state = record heard_state {
  node = loop W heard_state.node 20 21 [];
  answered = acknowledged W heard_state.node 20 21 [] ++ [];
}

reached : Reach V W answer-IsLawful start_state answered_state
reached =
    next (next (next here (transmits start_state 10)) (hears sent_state start 10))
      (answers heard_state 20 21 [])

pending_before : pending answered_state.controller.queue 0 0 ≡ some sent_once
unfolding enqueue_command transmit_due CommandController.send_frame next_due due_slot
    deadline_reached enqueue has_pending fill_slot new_queue command_frame
pending_before = refl

arrives :
    delivered V answer-IsLawful answered_state.controller.transport 40
    ≡ outgoing answered_state.node.endpoint ++ 0 ∷ 0 ∷ []
unfolding ask loop make_ack_frame poll beat setup receive_from_isr receive_loop is_ok decode_frame
    take_received receive_all copy_n publish encode_frame heartbeat_frame first_of verify_checksum8
    HeartbeatNode.answer status_code HeartbeatNode.publish_heartbeat checksum8 encode_header
    transmit_due CommandController.send_frame next_due due_slot enqueue_command enqueue has_pending
    fill_slot new_queue command_frame deadline_reached send
arrives = refl

resolved :
    pending
      (receive_acknowledgement
        (transport V)
        (record answered_state.controller { last_receive_ms = 30 })).queue
      0
      0
    ≡ Option.none
unfolding receive_acknowledgement is_ok decode_frame receive frame_length_from_prefix copy_available
    ask make_ack_frame first_of verify_checksum8 parse_ack_frame copy_n acknowledge free_slot
    transmit_due next_due due_slot enqueue_command status_code status_of_code command_frame
    CommandController.resolve CommandController.send_frame drain checksum8 encode_frame
    encode_header deadline_reached enqueue fill_slot has_pending new_queue send
resolved = refl

Step-pending_example :
    ((◌≡◌ {A = ℕ} 0 0) × Mem 0 answered_state.answered) ⊎ (sent_once.attempts ≡ 3)
Step-pending_example =
    Step-pending answer-IsLawful command-IsLawful wire_transport 10 5 0 0 sent_once reached
      (receives answered_state 30 (0 ∷ 0 ∷ []) (inl arrives)) pending_before resolved

run-IsOwn_example :
    let after = run W (setup 5) [] (loops 3 4 [] ∷ heard start 10 ∷ loops 20 21 [] ∷ []) in
    IsOwn after.1 (outgoing after.0.endpoint)
run-IsOwn_example =
    run-IsOwn W command-IsLawful 5 (loops 3 4 [] ∷ heard start 10 ∷ loops 20 21 [] ∷ [])
