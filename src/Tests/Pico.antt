-- ===== src/Tests/Pico.antt =====
-- The Pico mailbox on concrete transfers.
use picomesh.Base.{◌≡◌, refl, [], ◌∷◌, ◌++◌, true, some, arith, replicate}
use picomesh.Base.{copy_n}
use picomesh.Checksum.{checksum8}
use picomesh.Frame.{Frame, IsFrame, DecodeError, state, default_frame, encode_frame, encode_header}
use picomesh.Frame.Wire.{wire}
use picomesh.Frame.Decode.{sent}
use picomesh.PicoEndpoint.{
  I2cPeripheralEndpoint, new_endpoint, handle_irq, handle_irqs, receive_byte, transmit_byte, stop,
  complete_receive_from_isr, publish, poll, fill_inactive, switch_active,
}
use picomesh.PicoEndpoint.Invariant.{IsValid}
use picomesh.PicoEndpoint.Interrupts.{handle_irqs-IsValid}
use picomesh.PicoEndpoint.Reachable.{
  irq, publishes, polls, run, new_endpoint-IsValid, run-new_endpoint-IsValid,
}
use picomesh.PicoEndpoint.Mailbox.{mailbox, mailbox-handle_irqs}
use picomesh.PicoEndpoint.Reception.{byte_received, stopped, transfer, poll-transfer}
use picomesh.PicoEndpoint.Overflow.{mailbox-overlong}
use picomesh.PicoEndpoint.Outgoing.{requested, reading, publish-reading}

abbrev report : Frame
report = record default_frame { type = state; node_id = 3; payload_length = 1 }

report-IsFrame : IsFrame report
report-IsFrame = omega arith

-- A published frame is read to its end, and then zeros.
published_bytes :
    (handle_irqs (publish new_endpoint report []).0 (replicate 10 requested)).1
    ≡ some 183
      ∷ some 1
      ∷ some 2
      ∷ some 0
      ∷ some 3
      ∷ some 0
      ∷ some 1
      ∷ some 0
      ∷ some 66
      ∷ some 0
      ∷ []
unfolding publish handle_irqs handle_irq transmit_byte fill_inactive switch_active encode_frame
    copy_n encode_header checksum8
published_bytes = refl

run-new_endpoint-IsValid_example : IsValid (
    run new_endpoint (
      irq (byte_received 183)
      ∷ publishes report report-IsFrame (requested ∷ [])
      ∷ irq stopped
      ∷ polls
      ∷ []))
run-new_endpoint-IsValid_example = run-new_endpoint-IsValid (
    irq (byte_received 183)
    ∷ publishes report report-IsFrame (requested ∷ [])
    ∷ irq stopped
    ∷ polls
    ∷ [])

-- The endpoint after a transfer of two bytes.
abbrev holding : I2cPeripheralEndpoint
holding = (handle_irqs new_endpoint (transfer (1 ∷ 2 ∷ []))).0

mailbox-handle_irqs_example :
    mailbox (handle_irqs holding (transfer (3 ∷ 4 ∷ 5 ∷ []))).0 ≡ mailbox holding
unfolding handle_irqs handle_irq receive_byte stop complete_receive_from_isr
mailbox-handle_irqs_example =
    mailbox-handle_irqs holding (transfer (3 ∷ 4 ∷ 5 ∷ []))
      (handle_irqs-IsValid (transfer (1 ∷ 2 ∷ [])) new_endpoint-IsValid) refl

poll-transfer_example :
    let e' = (handle_irqs new_endpoint (transfer (wire report) ++ transfer (7 ∷ []))).0 in
    ((poll e' default_frame (some DecodeError.too_short)).1 ≡ true)
    × ((poll e' default_frame (some DecodeError.too_short)).2 ≡ sent report)
    × ((poll e' default_frame (some DecodeError.too_short)).3 ≡ some DecodeError.none)
poll-transfer_example =
    poll-transfer new_endpoint (transfer (7 ∷ [])) default_frame DecodeError.too_short
      report-IsFrame new_endpoint-IsValid refl refl

publish-reading_example :
    (handle_irqs (publish new_endpoint report (stopped ∷ [])).0 (replicate 10 requested)).1
    ≡ reading 10 (wire report)
unfolding publish handle_irqs handle_irq stop complete_receive_from_isr fill_inactive switch_active
    encode_frame
publish-reading_example =
    publish-reading new_endpoint (stopped ∷ []) 10 report-IsFrame new_endpoint-IsValid refl

mailbox-overlong_example :
    (mailbox (handle_irqs new_endpoint (transfer (replicate 40 1 ++ 2 ∷ 3 ∷ []))).0
      ≡ some (replicate 40 1))
    × ((handle_irqs new_endpoint (transfer (replicate 40 1 ++ 2 ∷ 3 ∷ []))).0.dropped_frames ≡ 2)
mailbox-overlong_example =
    mailbox-overlong new_endpoint (replicate 40 1) (2 ∷ 3 ∷ []) new_endpoint-IsValid refl refl
      (omega arith) (omega arith) refl
