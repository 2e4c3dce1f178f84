-- ===== src/Tests/Boards/Apps.antt =====
-- The applications on concrete buses.
use picomesh.Base.{
  ap, sym, ◌∙◌, ℕ, ◌≡◌, ◌==◌, ◌&&◌, if◌then◌else◌, refl, List, [], ◌∷◌, ◌++◌, Option, some, arith,
  set, AllBytes, copy_n, length,
}
use picomesh.Checksum.{checksum8}
use picomesh.Frame.{Frame, IsFrame, heartbeat, default_frame, encode_frame, encode_header}
use picomesh.Frame.Wire.{wire}
use picomesh.Ack.{make_ack_frame, accepted}
use picomesh.NodeRegistry.{new_registry, seen_status, get}
use picomesh.NodeRegistry.View.{new_registry-IsValid}
use picomesh.ReliableQueue.{
  next_due, due_slot, enqueue, has_pending, fill_slot, new_queue, deadline_reached,
}
use picomesh.ReliableQueue.Pending.{pending}
use picomesh.Arduino.Controller.{transport}
use picomesh.Arduino.Endpoint.{new_endpoint, receive_loop, receive_from_isr, request_from_isr}
use picomesh.Arduino.Endpoint.Exchange.{outgoing, publish_lem}
use picomesh.Arduino.Endpoint.Interrupts.{new_endpoint-IsValid, receive_from_isr_lem}
use picomesh.Apps.HeartbeatNode
use picomesh.Apps.HeartbeatNode.{setup, heartbeat_frame, Node, beat, loop}
use picomesh.Apps.HeartbeatNode.Laws.{IsSafe, loop-outgoing}
use picomesh.Apps.Polling
use picomesh.Apps.Polling.{multi_node_loop}
use picomesh.Apps.Polling.Laws.{multi_node_loop-get}
use picomesh.Apps.CommandController
use picomesh.Apps.CommandController.{
  command_frame, new_controller, enqueue_command, transmit_due, receive_acknowledgement,
}
use picomesh.Apps.CommandController.Laws.{IsSingle, run, run-IsSingle}
use picomesh.Arduino.Controller.{send}
use picomesh.ReliableQueue.Invariant.{IsValid, enqueue-IsValid, new_queue-IsValid}
use picomesh.Apps.Exchange.{replies, command_acknowledged}
use picomesh.Tests.Boards.Line.{new_line, line, line-IsLawful, line-Delivers}
use picomesh.Arduino.Endpoint.Answering.{request_from_isr-queued}
use picomesh.Tests.Boards.Wire.{Position, bus, bus-IsLawful, first_of, ask}
use picomesh.Tests.Boards.Arduino.{hello, hello-IsFrame}

-- A command that asks for an acknowledgement.
abbrev order : Frame
order = record default_frame { type = 0x10; flags = 1; sequence = 7; payload_length = 1 }

order-IsFrame : IsFrame order
order-IsFrame = omega arith

abbrev order_script : ℕ → List ℕ
order_script address = wire order

order_script-AllBytes : (a : ℕ) → AllBytes (order_script a)
order_script-AllBytes a = omega arith

abbrev pub start : Position
start = record { address = 0x42; next = 0 }

-- A node that has heard the order.
abbrev node : Node
node = record {
  endpoint = (receive_from_isr (bus order_script) start new_endpoint 9).1;
  sequence_number = 3;
  last_heartbeat_ms = 0;
}

node-IsSafe : IsSafe node
node-IsSafe = record {
  valid =
      (receive_from_isr_lem (bus order_script) (bus-IsLawful order_script order_script-AllBytes)
        new_endpoint-IsValid start 9).1;
  sequence_byte = omega arith;
}

-- The heartbeat due at 1500 ms takes the sequence 3, and the answer takes 4.
loop-outgoing_example :
    outgoing (loop (bus order_script) node 1500 1501 []).endpoint
    ≡ wire (make_ack_frame 0 4 7 accepted)
unfolding beat HeartbeatNode.publish_heartbeat receive_from_isr receive_loop first_of
loop-outgoing_example =
    loop-outgoing (bus order_script) (bus-IsLawful order_script order_script-AllBytes) 1500 1501
      node-IsSafe order-IsFrame refl refl

-- Two nodes, which answer at two addresses.
abbrev second : Frame
second = record default_frame { type = heartbeat; node_id = 5; sequence = 77 }

second-IsFrame : IsFrame second
second-IsFrame = omega arith

abbrev nodes_script : ℕ → List ℕ
nodes_script address = if address == 0x42 then wire hello ++ 0 ∷ [] else wire second

nodes_script-AllBytes : (a : ℕ) → AllBytes (nodes_script a)
nodes_script-AllBytes a = ground arith

abbrev poller : Polling.Controller (bus nodes_script)
poller = record { bus = start; registry = new_registry 2500; last_poll_ms = 0 }

multi_node_loop-get_example :
    (get (multi_node_loop (bus nodes_script) poller 500).registry 2 ≡ some (seen_status 2 9 500))
    × (get (multi_node_loop (bus nodes_script) poller 500).registry 5 ≡ some (seen_status 5 77 500))
unfolding ask
multi_node_loop-get_example =
    multi_node_loop-get (bus nodes_script) (bus-IsLawful nodes_script nodes_script-AllBytes) poller
      500 (0 ∷ []) [] (new_registry-IsValid 2500) hello-IsFrame second-IsFrame (omega arith)
      (omega arith) (omega arith) refl refl refl

run-IsSingle_example :
    IsSingle
      (run
        (transport (bus order_script))
        (enqueue_command
          (transport (bus order_script))
          (new_controller (transport (bus order_script)) (record { wire = start; address = 0x42 }))
          10)
        (15 ∷ 40 ∷ 5100 ∷ [])).queue
run-IsSingle_example =
    run-IsSingle (transport (bus order_script)) (record { wire = start; address = 0x42 }) 10
      (15 ∷ 40 ∷ 5100 ∷ [])

-- The command that the controller sends first.
abbrev pub first_command : Frame
first_command = record default_frame {
  type = 0x10;
  flags = 1;
  payload_length = 2;
  payload = set (set default_frame.payload 0 1) 1 1;
}

pub first_command-IsFrame : IsFrame first_command
first_command-IsFrame = omega arith

abbrev pub command_script : ℕ → List ℕ
command_script address = wire first_command

pub command_script-AllBytes : (a : ℕ) → AllBytes (command_script a)
command_script-AllBytes a = omega arith

abbrev reply_script : ℕ → List ℕ
reply_script address = wire (make_ack_frame 0 3 0 accepted) ++ 0 ∷ 0 ∷ []

reply_script-AllBytes : (a : ℕ) → AllBytes (reply_script a)
unfolding make_ack_frame
reply_script-AllBytes a = omega arith

-- The controller with its first command.
abbrev commander : CommandController.Controller (transport (line reply_script))
commander =
    enqueue_command (transport (line reply_script))
      (new_controller (transport (line reply_script))
        (record { wire = new_line start; address = 0x42 }))
      10

abbrev idle_node : Node
idle_node = record { endpoint = new_endpoint; sequence_number = 3; last_heartbeat_ms = 0 }

idle_node-IsSafe : IsSafe idle_node
idle_node-IsSafe = record { valid = new_endpoint-IsValid; sequence_byte = omega arith }

commander-IsValid : IsValid commander.queue
unfolding enqueue_command command_frame
commander-IsValid =
    enqueue-IsValid (command_frame 0) 10 (omega arith)
      (new_queue-IsValid (record { timeout_ms = 250; max_attempts = 3 }) (omega arith))

-- The node has heard the command, and its loop has run.
abbrev replied : Node
replied =
    replies (line reply_script) (line command_script)
      (line-IsLawful reply_script reply_script-AllBytes)
      (line-IsLawful command_script command_script-AllBytes) idle_node (new_line start) 20 21

replied-outgoing : outgoing replied.endpoint ≡ wire (make_ack_frame 0 3 0 accepted)
unfolding beat receive_from_isr receive_loop first_of
replied-outgoing =
    loop-outgoing (line command_script) (line-IsLawful command_script command_script-AllBytes) 20 21
      (record {
        valid =
            (receive_from_isr_lem (line command_script)
              (line-IsLawful command_script command_script-AllBytes) new_endpoint-IsValid
              (new_line start) 10).1;
        sequence_byte = omega arith;
      })
      first_command-IsFrame refl refl

-- A request then queues that answer.
replied-queued :
    (request_from_isr (line command_script) (new_line start) replied.endpoint).queued
    ≡ wire (make_ack_frame 0 3 0 accepted)
unfolding make_ack_frame
replied-queued =
    request_from_isr-queued (line command_script) (line-Delivers command_script) (new_line start)
      replied.endpoint refl (omega (arith, ap length replied-outgoing))
    ∙ replied-outgoing

command_acknowledged_example :
    pending
      (receive_acknowledgement
        (transport (line reply_script))
        (transmit_due (transport (line reply_script)) commander 10)).queue
      0
      0
    ≡ (if (0 == 0) && (0 == 0) then Option.none else pending (next_due commander.queue 10).0 0 0)
unfolding enqueue_command transmit_due CommandController.send_frame next_due due_slot
    deadline_reached enqueue has_pending fill_slot new_queue command_frame ask encode_frame
    encode_header copy_n checksum8 send make_ack_frame
command_acknowledged_example =
    command_acknowledged (line reply_script) (line command_script)
      (line-IsLawful reply_script reply_script-AllBytes)
      (line-IsLawful command_script command_script-AllBytes) {f = first_command}
      (line-Delivers reply_script) (line-Delivers command_script) commander idle_node
      (new_line start) (new_line start) 10 20 21 (0 ∷ 0 ∷ []) 0 0 commander-IsValid idle_node-IsSafe
      first_command-IsFrame refl refl refl refl refl
      (ap (λ bs. bs ++ 0 ∷ 0 ∷ []) (sym replied-queued))

-- The first heartbeat.
setup_bytes : outgoing (setup 258).endpoint ≡ wire (heartbeat_frame 0 258)
unfolding setup heartbeat_frame
setup_bytes =
    (publish_lem new_endpoint-IsValid (record {
      type_byte = omega arith;
      flags_byte = omega arith;
      node_byte = omega arith;
      sequence_byte = omega arith;
      length_byte = omega arith;
      payload_size = refl;
      payload_bytes = omega arith;
    })).2
