-- ===== src/Apps/HeartbeatNode/Laws.antt =====
-- What the heartbeat node sends.
use picomesh.Base.{
  ℕ, ◌<◌, ◌≡◌, refl, ◌∙◌, [], true, false, none, some, arith, Bool-cases, inl, inr, bit_and,
}
use picomesh.Base.{◌==◌, leb, sub32, AllBytes-replicate}
use picomesh.Frame.{Frame, IsFrame, default_frame}
use picomesh.Frame.Wire.{wire}
use picomesh.Frame.Decode.{sent}
use picomesh.Ack.{make_ack_frame, accepted, flag_ack_required}
use picomesh.Ack.Laws.{make_ack_frame-IsFrame}
use picomesh.Arduino.TwoWire.{TwoWire, IsLawful}
use picomesh.Arduino.Endpoint.{receive_all}
use picomesh.Arduino.Endpoint.Interrupts.{IsValid, mailbox}
use picomesh.Arduino.Endpoint.Exchange.{outgoing, publish_lem, poll-mailbox, take_received-IsValid}
use picomesh.Apps.HeartbeatNode.{Node, heartbeat_frame, publish_heartbeat, answer, beat, loop}

pub heartbeat_frame-IsFrame :
    (sequence uptime : ℕ) → sequence < 256 → IsFrame (heartbeat_frame sequence uptime)
unfolding heartbeat_frame
heartbeat_frame-IsFrame sequence uptime h = record {
  type_byte = omega arith;
  flags_byte = omega arith;
  node_byte = omega arith;
  sequence_byte = h;
  length_byte = omega arith;
  payload_size = refl;
  payload_bytes = (omega arith, (omega arith, (omega arith, (omega arith, AllBytes-replicate 28))));
}

pub record IsSafe (n : Node) : Type 0 where
  pub valid : IsValid n.endpoint
  pub sequence_byte : n.sequence_number < 256

-- A heartbeat, sent or not, leaves what is ready alone.
record Beats (n n' : Node) : Type 0 where
  safe : IsSafe n'
  same_mailbox : mailbox n'.endpoint ≡ mailbox n.endpoint

beat-Beats : {n : Node} (now uptime : ℕ) → IsSafe n → Beats n (beat n now uptime)
unfolding beat publish_heartbeat
beat-Beats {n} now uptime h = elim (Bool-cases (leb 1000 (sub32 now n.last_heartbeat_ms))) [
  | inl due ↦
      let p =
        publish_lem h.valid (heartbeat_frame-IsFrame n.sequence_number uptime h.sequence_byte) in
      rw due
        (record { safe = record { valid = p.1; sequence_byte = omega arith }; same_mailbox = p.3 })
  | inr early ↦ rw early (record { safe = h; same_mailbox = refl })
]

pub beat-byte : {n : Node} (now uptime : ℕ) → IsSafe n → (beat n now uptime).sequence_number < 256
beat-byte now uptime h = (beat-Beats now uptime h).safe.sequence_byte

answer-outgoing :
    {n : Node} (f : Frame)
    → IsSafe n
    → f.sequence < 256
    → bit_and f.flags flag_ack_required ≡ 1
    → outgoing (answer n f).endpoint ≡ wire (make_ack_frame 0 n.sequence_number f.sequence accepted)
unfolding answer
answer-outgoing {n} f h byte flag =
    let asked : (bit_and f.flags flag_ack_required == 0) ≡ false = ground (arith, flag) in
    rw asked
      (publish_lem h.valid (
        make_ack_frame-IsFrame 0 n.sequence_number f.sequence accepted (omega arith) h.sequence_byte
          byte)).2

module _ (W : TwoWire) (laws : IsLawful W) where
  -- If a frame whose fields fit their C++ types is ready on a node and asks for an
  -- acknowledgement, then after one `loop` without interrupts the node is to send the
  -- acknowledgement of its sequence, with the next sequence of the node, whether or not a
  -- heartbeat was due.
  pub loop-outgoing :
      {n : Node} {f : Frame} (now uptime : ℕ)
      → IsSafe n
      → IsFrame f
      → mailbox n.endpoint ≡ some (wire f)
      → bit_and f.flags flag_ack_required ≡ 1
      → outgoing (loop W n now uptime []).endpoint
        ≡ wire (make_ack_frame 0 (beat n now uptime).sequence_number f.sequence accepted)
  unfolding loop receive_all
  loop-outgoing {n} {f} now uptime h fr m flag =
      let b = beat-Beats now uptime h in
      let ready : (beat n now uptime).endpoint.rx_ready ≡ true =
        ground (arith, b.same_mailbox, m) in
      let polled =
        poll-mailbox W laws default_frame none [] b.safe.valid fr ready (b.same_mailbox ∙ m) in
      rw polled (
        answer-outgoing (sent f)
          (record {
            valid = take_received-IsValid W laws b.safe.valid;
            sequence_byte = b.safe.sequence_byte;
          })
          fr.sequence_byte flag)
