-- ===== src/Tests/Boards/Links.antt =====
-- The programs for simulated links, on the frames that they build.
use picomesh.Base.{some, [], ◌∷◌, ◌≡◌, arith}
use picomesh.Frame.{IsFrame, decode_frame}
use picomesh.Frame.Accepted.{IsCanonical}
use picomesh.Frame.Result.{decode_frame-IsCanonical}
use picomesh.ReliableQueue.{pending_count}
use picomesh.Apps.HostExamples.{
  frame_codec, reliable_queue, host_simulator, codec_frame, queue_command, host_heartbeat,
}
use picomesh.Apps.HostExamples.Laws.{frame_codec_lem, reliable_queue_lem, host_simulator_lem}
use picomesh.Apps.LossyLink
use picomesh.Apps.LossyLink.{loop, entered, link_policy, link_command}
use picomesh.Apps.LossyLink.Laws.{simulate-ends}
use picomesh.Apps.MalformedLink.{simulate, state_frame}
use picomesh.Apps.MalformedLink.Laws.{simulate-recovers}

state_frame-IsFrame : IsFrame state_frame
state_frame-IsFrame = omega arith

simulate-recovers_example : simulate state_frame ≡ 0
simulate-recovers_example = simulate-recovers state_frame state_frame-IsFrame

simulate-ends_example :
    (pending_count (loop 7 (entered link_policy link_command)).queue ≡ 0)
    × (LossyLink.simulate 7 link_policy link_command ≡ 0)
simulate-ends_example =
    simulate-ends 200 3 link_command (omega arith) (omega arith) (omega arith) (omega arith)

-- A buffer that is refused for its length byte.
decode_frame-IsCanonical_example :
    IsCanonical (decode_frame (some (183 ∷ 1 ∷ 2 ∷ 3 ∷ 4 ∷ 5 ∷ 99 ∷ 6 ∷ [])) 8).frame
decode_frame-IsCanonical_example =
    decode_frame-IsCanonical (183 ∷ 1 ∷ 2 ∷ 3 ∷ 4 ∷ 5 ∷ 99 ∷ 6 ∷ []) 8 (omega arith) (omega arith)

-- The other programs on their frames.
codec_code : frame_codec codec_frame ≡ 0
codec_code = frame_codec_lem codec_frame (omega arith)

queue_code : reliable_queue queue_command ≡ 0
queue_code = reliable_queue_lem queue_command

-- One node is online at first, and none after the timeout.
host_counts : host_simulator host_heartbeat ≡ (0, 1, 0)
host_counts = host_simulator_lem host_heartbeat (omega arith) (omega arith)
