-- ===== src/Apps/CommandController/Transmission.antt =====
-- What `transmitDue` of the command controller sends.
use picomesh.Base.{ℕ, ◌≡◌, sym, ◌∙◌, ap, List, ◌∷◌, some, arith}
use picomesh.Base.{take}
use picomesh.Frame.{Frame, encode_frame}
use picomesh.ReliableQueue.{send, next_due}
use picomesh.Transport.{Transport}
use picomesh.Arduino.TwoWire.{TwoWire, Delivers}
use picomesh.Arduino.Controller.{transport}
use picomesh.Arduino.Controller.Sending.{delivered-send}
use picomesh.Apps.CommandController.{Controller, send_frame, transmit_due}

-- When the queue decides to send a frame, its encoded bytes go to the transport.
transmit_due-send :
    (T : Transport) {f : Frame} (c : Controller T) (now : ℕ)
    → (next_due c.queue now).1.action ≡ send
    → (next_due c.queue now).1.frame ≡ f
    → (transmit_due T c now).transport
      ≡ (T.send c.transport (some (encode_frame f).bytes) (encode_frame f).active).0
unfolding transmit_due send_frame
transmit_due-send T {f} c now sends frame = ground (arith, sends, frame)

-- On the Wire transport, a transmission that this has added to those delivered is of these bytes.
pub delivered-transmit_due :
    (W : TwoWire) (laws : Delivers W) {f : Frame} {heard : List ℕ} (c : Controller (transport W))
    (now : ℕ)
    → (next_due c.queue now).1.action ≡ send
    → (next_due c.queue now).1.frame ≡ f
    → laws.delivered (transmit_due (transport W) c now).transport.wire
      ≡ (c.transport.address, heard) ∷ laws.delivered c.transport.wire
    → heard ≡ take (encode_frame f).active (encode_frame f).bytes
delivered-transmit_due W laws {f} c now sends frame more =
    delivered-send W laws c.transport (encode_frame f).bytes (encode_frame f).active (
      ap (λ t. laws.delivered t.wire) (sym (transmit_due-send (transport W) c now sends frame))
      ∙ more)
