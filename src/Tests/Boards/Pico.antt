-- ===== src/Tests/Boards/Pico.antt =====
-- The controller and the UART of the Pico on concrete input.
use picomesh.Base.{ℕ, ◌≤◌, ◌≡◌, refl, List, [], ◌∷◌, ◌++◌, some, arith, replicate, length}
use picomesh.Frame.{DecodeError, decode_frame}
use picomesh.Frame.Wire.{wire}
use picomesh.Frame.Decode.{sent}
use picomesh.Transport.{WritesWithin}
use picomesh.PicoTransport.I2c
use picomesh.PicoTransport.I2c.{I2cControllerTransport}
use picomesh.PicoTransport.I2c.Laws.{receive_frame}
use picomesh.PicoTransport.Uart
use picomesh.PicoTransport.Uart.{UartTransport}
use picomesh.PicoTransport.Uart.Laws.{receive-writes}
use picomesh.Base.{drop, get_or, true, false, none}
use picomesh.PicoEndpoint.{new_endpoint}
use picomesh.PicoEndpoint.Reception.{stopped}
use picomesh.PicoTransport.Slots.{Board, begin, attach, index_of, taken_by_other, start}
use picomesh.PicoTransport.Slots.Laws.{begins, interrupts, run, run-endpoints}
use picomesh.PicoEndpoint.Outgoing.{requested, outgoing}
use picomesh.Apps.PicoNode.{started}
use picomesh.Apps.PicoNode.Run.{irq, rounds, run as node_run, run-outgoing}
use picomesh.Apps.HeartbeatNode.Run.{IsOwn}
use picomesh.Tests.Boards.Sdk.{board, board-IsLawful}
use picomesh.Tests.Boards.Arduino.{hello, hello-IsFrame}

abbrev delivered : List ℕ
delivered = wire hello ++ 255 ∷ []

abbrev controller : I2cControllerTransport (board delivered)
controller = record { hardware = 0; instance_ptr = some true; address = 0x42 }

receive_frame_example :
    let out = I2c.receive (board delivered) controller (some (replicate 40 0)) 40 in
    (decode_frame out.1 out.2 ≡ record { frame = sent hello; error = DecodeError.none })
    × (out.2 ≡ length (wire hello))
receive_frame_example =
    receive_frame (board delivered) (board-IsLawful delivered) controller true (replicate 40 0)
      (255 ∷ []) 40 refl hello-IsFrame (omega arith) refl refl

abbrev uart : UartTransport (board delivered)
uart = record { hardware = 4; instance_ptr = some tt }

receive-writes_example :
    WritesWithin (replicate 8 0) 5 (Uart.receive (board delivered) uart (some (replicate 8 0)) 5).1
    × ((Uart.receive (board delivered) uart (some (replicate 8 0)) 5).2 ≤ 5)
receive-writes_example = receive-writes (board delivered) uart (replicate 8 0) 5 (omega arith)

-- Two endpoints, the first of which has begun on controller 0.
abbrev one_begun : Board (board delivered)
one_begun = record {
  endpoints = some 0 ∷ none ∷ [];
  instances = some false ∷ none ∷ [];
  instance_indexes = 0 ∷ 0 ∷ [];
  mailboxes = new_endpoint ∷ new_endpoint ∷ [];
  hardware = 0;
}

run-endpoints_example :
    let b =
      run
        (board delivered)
        one_begun
        (begins 1 (some true) 0x43 ∷ interrupts 0 (λ i. stopped) ∷ []) in
    (get_or b.endpoints 0 none ≡ some 0)
    × (begin (board delivered) b 1 (some false) 0x42 ≡ (b, false))
unfolding index_of
run-endpoints_example =
    run-endpoints (board delivered) (begins 1 (some true) 0x43 ∷ interrupts 0 (λ i. stopped) ∷ [])
      one_begun 0 1 0 false 0x42 refl refl (omega arith) refl

-- An object that begins on both controllers stands in both entries, with the second controller as
-- its own: it would read that one's registers for an interrupt of the first.
begun_twice :
    ((begin (board delivered) one_begun 0 (some true) 0x42).0.endpoints ≡ some 0 ∷ some 0 ∷ [])
    × ((begin (board delivered) one_begun 0 (some true) 0x42).0.instances ≡ some true ∷ none ∷ [])
unfolding begin attach index_of taken_by_other start
begun_twice = (refl, refl)

-- A heartbeat of which a byte has been read, and a round in which another is due.
run-outgoing_example :
    let after =
      node_run (started 5000 []) [] (irq requested ∷ rounds 2000000 2000100 [] [] [] ∷ []) in
    (bytes : List ℕ) × IsOwn after.1 bytes
    × (after.0.endpoint.tx_index ≤ length bytes)
    × (outgoing after.0.endpoint ≡ drop after.0.endpoint.tx_index bytes)
run-outgoing_example = run-outgoing 5000 [] (irq requested ∷ rounds 2000000 2000100 [] [] [] ∷ [])
