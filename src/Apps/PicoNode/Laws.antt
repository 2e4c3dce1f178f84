-- ===== src/Apps/PicoNode/Laws.antt =====
-- What the Pico node sends, and what becomes of an answer while the controller reads.
use picomesh.Base.{◌+◌, ◌<◌, ◌≡◌, refl, [], false, arith, bit_and}
use picomesh.Base.{◌==◌, if◌then◌else◌, u8}
use picomesh.Frame.{Frame}
use picomesh.Frame.Wire.{wire}
use picomesh.Ack.{make_ack_frame, accepted, flag_ack_required}
use picomesh.Ack.Laws.{make_ack_frame-IsFrame}
use picomesh.PicoEndpoint.Invariant.{IsValid}
use picomesh.PicoEndpoint.Reachable.{publish-IsValid}
use picomesh.PicoEndpoint.Outgoing.{outgoing, outgoing-publish}
use picomesh.Apps.PicoNode.{Node, answer}

-- On a valid endpoint with no interrupt meanwhile, a frame that asks for an acknowledgement makes
-- the acknowledgement of its sequence what is to be sent if the controller has read none of the
-- active frame; otherwise the answer is lost and what was still to be sent remains. In both cases
-- the sequence of the node advances and the endpoint stays valid.
outgoing-answer :
    (n : Node) (f : Frame)
    → IsValid n.endpoint
    → n.sequence_number < 256
    → f.sequence < 256
    → bit_and f.flags flag_ack_required ≡ 1
    → IsValid (answer n f []).endpoint
      × (outgoing (answer n f []).endpoint ≡ (
          if n.endpoint.tx_index == 0
          then wire (make_ack_frame 0 n.sequence_number f.sequence accepted)
          else outgoing n.endpoint))
      × ((answer n f []).sequence_number ≡ u8 (n.sequence_number + 1))
unfolding answer
outgoing-answer n f v own byte flag =
    let asked : (bit_and f.flags flag_ack_required == 0) ≡ false = ground (arith, flag) in
    let fr =
      make_ack_frame-IsFrame 0 n.sequence_number f.sequence accepted (omega arith) own byte in
    rw asked (
      publish-IsValid (make_ack_frame 0 n.sequence_number f.sequence accepted) [] fr v,
      (outgoing-publish n.endpoint fr v).1,
      refl,
    )
