-- ===== src/Apps/Exchange.antt =====
-- A command from the controller of examples/ArduinoReliableCommandController to the node of
-- examples/ArduinoHeartbeatNode, and its acknowledgement back.
use picomesh.Base.{
  ℕ, ◌-◌, ◌≤◌, ◌<◌, ◌≡◌, refl, ◌∙◌, ap, ap₂, subst, List, [], ◌∷◌, ◌++◌, ◌&&◌, Option, some, arith,
  bit_and, replicate, length,
}
use picomesh.Base.{◌==◌, if◌then◌else◌, take, take_all, take-append}
use picomesh.Frame.{Frame, IsFrame, DecodeError, encode_frame, decode_frame}
use picomesh.Frame.Wire.{wire, length-wire, sent_length, encode_frame-wire}
use picomesh.Frame.Decode.{sent}
use picomesh.Ack.{make_ack_frame, accepted, flag_ack_required}
use picomesh.Ack.Laws.{make_ack_frame-IsFrame}
use picomesh.ReliableQueue.{Slot, RetryPolicy, TxDecision, send, next_due, acknowledge}
use picomesh.ReliableQueue.Invariant.{IsValid, AllSlots, next_due-IsValid}
use picomesh.ReliableQueue.Due.{Due, due_slot-Due}
use picomesh.ReliableQueue.Lost.{find_slot-IsSlot}
use picomesh.ReliableQueue.Pending.{pending, acknowledge_lem}
use picomesh.Arduino.TwoWire.{TwoWire, IsLawful, Delivers}
use picomesh.Arduino.Endpoint.Answering.{request_from_isr-queued}
use picomesh.Apps.CommandController.Transmission.{delivered-transmit_due}
use picomesh.Arduino.Controller.{receive, transport}
use picomesh.Arduino.Controller.Laws.{quantity, receive-wire}
use picomesh.Arduino.Endpoint.{receive_from_isr, request_from_isr}
use picomesh.Arduino.Endpoint.Interrupts.{mailbox, nonempty, receive_from_isr_lem}
use picomesh.Arduino.Endpoint.Exchange.{outgoing}
use picomesh.Apps.HeartbeatNode.{Node, loop, beat}
use picomesh.Apps.HeartbeatNode.Laws.{IsSafe, loop-outgoing, beat-byte}
use picomesh.Apps.CommandController.{Controller, transmit_due, receive_acknowledgement}
use picomesh.Apps.CommandController.Laws.{transmit_due-queue, receive_acknowledgement-make}

Due-flag :
    (p : RetryPolicy) (now : ℕ) (xs : List Slot) {out : List Slot × TxDecision}
    → AllSlots p xs
    → Due p now xs out
    → out.1.action ≡ send
    → bit_and out.1.frame.flags flag_ack_required ≡ 1
Due-flag p now xs all (Due.nothing h) e = absurd (ground (arith, e))
Due-flag p now xs all (Due.sends x ys found d a h) e =
    (find_slot-IsSlot p xs x.frame.node_id x.frame.sequence x all found).1
Due-flag p now xs all (Due.gives_up x ys found d a h) e = absurd (ground (arith, e))

-- An acknowledgement fits the buffer of the Wire library.
wire-make_ack_frame_short :
    (response : ℕ) {sequence : ℕ}
    → response < 256
    → sequence < 256
    → length (wire (make_ack_frame 0 response sequence accepted)) ≤ 32
unfolding make_ack_frame
wire-make_ack_frame_short response {sequence} h k =
    omega
      (arith, length-wire (make_ack_frame-IsFrame 0 response sequence accepted (omega arith) h k))

module _ (V W : TwoWire) (laws_v : IsLawful V) (laws_w : IsLawful W) where
  -- The node after it has been sent these bytes, and has run its loop.
  abbrev pub replies : Node → W.State → ℕ → ℕ → Node
  replies n s now uptime =
      loop W
        (record n { endpoint = (receive_from_isr W s n.endpoint (length (laws_w.unread s))).1 }) now
        uptime []

  -- The bytes that the controller is about to receive.
  abbrev pub awaiting : Controller (transport V) → List ℕ
  awaiting c = laws_v.unread (V.request_from c.transport.wire c.transport.address (quantity 40)).0

  replies-outgoing :
      {f : Frame} (n : Node) (s : W.State) (now uptime : ℕ)
      → IsSafe n
      → IsFrame f
      → bit_and f.flags flag_ack_required ≡ 1
      → laws_w.unread s ≡ take (encode_frame f).active (encode_frame f).bytes
      → (response : ℕ) × (response < 256)
        × (outgoing (replies n s now uptime).endpoint
            ≡ wire (make_ack_frame 0 response f.sequence accepted))
  replies-outgoing {f} n s now uptime h fr flag sent_bytes =
      let after = receive_from_isr_lem W laws_w h.valid s (length (laws_w.unread s)) in
      let heard : Node = record n {
        endpoint = (receive_from_isr W s n.endpoint (length (laws_w.unread s))).1;
      } in
      let safe : IsSafe heard = record { valid = after.1; sequence_byte = h.sequence_byte } in
      let arrived : laws_w.unread s ≡ wire f =
        sent_bytes
        ∙ ap₂ take (encode_frame-wire fr).1 (encode_frame-wire fr).0
        ∙ take-append (wire f) (replicate (32 - sent_length f) 0) (length (wire f)) refl in
      let ready : mailbox heard.endpoint ≡ some (wire f) =
        after.2
        ∙ ap nonempty (
            ap (take 40)
              (take_all (length (laws_w.unread s)) (laws_w.unread s) (omega arith) ∙ arrived)
            ∙ take_all 40 (wire f) (omega (arith, length-wire fr))) in
      (
        (beat heard now uptime).sequence_number,
        beat-byte now uptime safe,
        loop-outgoing W laws_w now uptime safe fr ready flag,
      )

  -- On two lawful buses: if the queue of the command controller is valid and `next_due` decides
  -- to send a frame, which fits its C++ types and is for node 0, the bus delivers one
  -- transmission in `transmit_due`, to the address of the transport, the node, whose endpoint and
  -- sequence number are valid, finds the bytes of that transmission unread and then runs its
  -- loop, and the controller next receives what the handler of a request on the node adds to an
  -- empty queue, with any padding: that command is no longer pending, and every other key is as
  -- `next_due` left it.
  pub command_acknowledged :
      {f : Frame} (sends_v : Delivers V) (sends_w : Delivers W) (c : Controller (transport V))
      (n : Node) (s asked : W.State) (now later uptime : ℕ) (padding : List ℕ) (m r : ℕ)
      → IsValid c.queue
      → IsSafe n
      → IsFrame f
      → f.node_id ≡ 0
      → (next_due c.queue now).1.action ≡ send
      → (next_due c.queue now).1.frame ≡ f
      → sends_v.delivered (transmit_due (transport V) c now).transport.wire
        ≡ (c.transport.address, laws_w.unread s) ∷ sends_v.delivered c.transport.wire
      → sends_w.queued asked ≡ []
      → awaiting (transmit_due (transport V) c now)
        ≡ sends_w.queued (request_from_isr W asked (replies n s later uptime).endpoint) ++ padding
      → pending (receive_acknowledgement (transport V) (transmit_due (transport V) c now)).queue m r
        ≡ (if (m == 0) && (r == f.sequence)
            then Option.none
            else pending (next_due c.queue now).0 m r)
  unfolding next_due
  command_acknowledged {f} sends_v sends_w c n s asked now later uptime padding m r v h fr node
        sends frame heard idle answered =
      ap (λ q. pending q m r) resolved
      ∙ (acknowledge_lem (next_due c.queue now).0 0 f.sequence m r accepted
          (next_due-IsValid now v)).1
    where
      c' : Controller (transport V)
      c' = transmit_due (transport V) c now

      flag : bit_and f.flags flag_ack_required ≡ 1
      flag =
          subst (λ (g : Frame). bit_and g.flags flag_ack_required ≡ 1) frame
            (Due-flag c.queue.policy now c.queue.slots v.slots_ok
              (due_slot-Due c.queue.policy now c.queue.slots v.unique) sends)

      reply :
          (response : ℕ) × (response < 256)
          × (outgoing (replies n s later uptime).endpoint
              ≡ wire (make_ack_frame 0 response f.sequence accepted))
      reply =
          replies-outgoing n s later uptime h fr flag
            (delivered-transmit_due V sends_v c now sends frame heard)

      answer : Frame
      answer = make_ack_frame 0 reply.0 f.sequence accepted

      answer-IsFrame : IsFrame answer
      answer-IsFrame =
          make_ack_frame-IsFrame 0 reply.0 f.sequence accepted (omega arith) reply.1
            fr.sequence_byte

      queued :
          sends_w.queued (request_from_isr W asked (replies n s later uptime).endpoint)
          ≡ wire answer
      queued =
          request_from_isr-queued W sends_w asked (replies n s later uptime).endpoint idle (
            omega (
              arith,
              ap length reply.2,
              wire-make_ack_frame_short reply.0 reply.1 fr.sequence_byte,
            ))
          ∙ reply.2

      got :
          decode_frame
            (receive V c'.transport (some (replicate 40 0)) 40).1
            (receive V c'.transport (some (replicate 40 0)) 40).2
          ≡ record { frame = sent answer; error = DecodeError.none }
      got =
          (receive-wire V laws_v c'.transport (replicate 40 0) padding 40 answer-IsFrame
            (omega arith) (answered ∙ ap (λ bs. bs ++ padding) queued)).0

      resolved :
          (receive_acknowledgement (transport V) c').queue
          ≡ (acknowledge (next_due c.queue now).0 0 f.sequence accepted).0
      resolved =
          receive_acknowledgement-make (transport V) c' 0 reply.0 f.sequence accepted got
          ∙ ap (λ q. (acknowledge q 0 f.sequence accepted).0)
              (transmit_due-queue (transport V) c now).0
