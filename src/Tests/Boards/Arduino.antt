-- ===== src/Tests/Boards/Arduino.antt =====
-- The Wire transports on concrete transfers.
use picomesh.Base.{
  ℕ, ◌≡◌, refl, List, [], ◌∷◌, ◌++◌, true, some, arith, replicate, length, take, AllBytes,
}
use picomesh.Frame.{Frame, IsFrame, DecodeError, heartbeat, default_frame, decode_frame}
use picomesh.Frame.Wire.{wire}
use picomesh.Frame.Decode.{sent}
use picomesh.Arduino.Controller.{WireControllerTransport, receive}
use picomesh.Arduino.Controller.Laws.{receive-wire}
use picomesh.Arduino.Endpoint.{
  WirePeripheralEndpoint, new_endpoint, receive_loop, receive_from_isr, request_from_isr, poll,
}
use picomesh.Arduino.Endpoint.Interrupts.{
  IsValid, mailbox, new_endpoint-IsValid, nonempty, receive_from_isr_lem,
}
use picomesh.Arduino.Endpoint.Exchange.{poll-between}
use picomesh.Base.{◌==◌, if◌then◌else◌, Option, false}
use picomesh.Arduino.TwoWire.{drain}
use picomesh.Arduino.Active.{
  Sketch, assign, taken_by_other, begin, receive_callback, request_callback,
}
use picomesh.Arduino.Active.Laws.{Event, Serves, begins, receives, requests, step, run, run-active}
use picomesh.Tests.Boards.Wire.{Position, bus, bus-IsLawful, first_of, ask}

abbrev pub hello : Frame
hello = record default_frame { type = heartbeat; node_id = 2; sequence = 9; payload_length = 1 }

pub hello-IsFrame : IsFrame hello
hello-IsFrame = omega arith

-- Every address answers with the frame, and padding behind it.
abbrev hello_script : ℕ → List ℕ
hello_script address = wire hello ++ 255 ∷ 255 ∷ []

abbrev exact_script : ℕ → List ℕ
exact_script address = wire hello

hello_script-AllBytes : (a : ℕ) → AllBytes (hello_script a)
hello_script-AllBytes a = omega arith

exact_script-AllBytes : (a : ℕ) → AllBytes (exact_script a)
exact_script-AllBytes a = omega arith

abbrev start : Position
start = record { address = 0x42; next = 0 }

abbrev controller : WireControllerTransport (bus hello_script)
controller = record { wire = start; address = 0x42 }

receive-wire_example :
    let out = receive (bus hello_script) controller (some (replicate 40 0)) 40 in
    (decode_frame out.1 out.2 ≡ record { frame = sent hello; error = DecodeError.none })
    × (out.2 ≡ length (wire hello))
    × ((bus-IsLawful hello_script hello_script-AllBytes).unread out.0.wire ≡ [])
unfolding ask
receive-wire_example =
    receive-wire (bus hello_script) (bus-IsLawful hello_script hello_script-AllBytes) controller
      (replicate 40 0) (255 ∷ 255 ∷ []) 40 hello-IsFrame (omega arith) refl

receive_from_isr_lem_example :
    let out = receive_from_isr (bus exact_script) start new_endpoint 5 in
    let laws = bus-IsLawful exact_script exact_script-AllBytes in
    (laws.unread out.0 ≡ [])
    × IsValid out.1
    × (mailbox out.1 ≡ nonempty (take 40 (take 5 (wire hello))))
    × (out.1.tx_bytes ≡ replicate 40 0)
    × (out.1.tx_length ≡ 0)
receive_from_isr_lem_example =
    receive_from_isr_lem (bus exact_script) (bus-IsLawful exact_script exact_script-AllBytes)
      new_endpoint-IsValid start 5

-- The endpoint after three bytes.
abbrev heard : WirePeripheralEndpoint
heard = (receive_from_isr (bus exact_script) start new_endpoint 3).1

poll-between_example :
    let out =
      poll
        (bus exact_script)
        heard
        default_frame
        (some DecodeError.too_short)
        ((start, 1) ∷ (start, 9) ∷ []) in
    (out.1 ≡ true) × (out.2 ≡ sent hello) × (out.3 ≡ some DecodeError.none)
unfolding receive_from_isr receive_loop first_of
poll-between_example =
    poll-between (bus exact_script) (bus-IsLawful exact_script exact_script-AllBytes)
      ((start, 1) ∷ []) start 9 default_frame DecodeError.too_short
      (receive_from_isr_lem (bus exact_script) (bus-IsLawful exact_script exact_script-AllBytes)
        new_endpoint-IsValid start 3).1
      hello-IsFrame refl refl (omega arith)

-- Two endpoints, the first of which has begun on the first of two buses.
abbrev sketch : Sketch (bus exact_script)
sketch = record {
  active = some 0;
  objects =
      λ this. record { buffers = new_endpoint; wire = if this == 0 then some 0 else Option.none };
  buses = λ wire. start;
}

sketch-Serves : Serves (bus exact_script) 0 sketch
sketch-Serves = record { active = refl; bus = 0; wire = refl }

-- The second is refused on either bus, and keeps a null `wire_`; the first hears a transfer, and
-- begins again on the second bus.
abbrev history : List (Event (bus exact_script))
history = begins 1 0x43 1 ∷ receives 0 start 9 ∷ begins 0 0x42 1 ∷ requests 1 start ∷ []

run-active_example :
    let s = run (bus exact_script) sketch history in
    Serves (bus exact_script) 0 s
    × (s.objects 1 ≡ record { buffers = new_endpoint; wire = Option.none })
    × (begin (bus exact_script) s 1 0x42 0 ≡ (s, false))
run-active_example =
    run-active (bus exact_script) history sketch 0 1 0x42 0 sketch-Serves (omega arith)

-- The transfer goes to the buffers of the active object, on the bus it refers to.
history_heard :
    mailbox ((run (bus exact_script) sketch history).objects 0).buffers ≡ some (wire hello)
unfolding run step begin receive_callback request_callback receive_from_isr receive_loop first_of
    assign taken_by_other drain request_from_isr
history_heard = refl

history_wire : ((run (bus exact_script) sketch history).objects 0).wire ≡ some 1
unfolding run step begin receive_callback request_callback assign taken_by_other
history_wire = refl
