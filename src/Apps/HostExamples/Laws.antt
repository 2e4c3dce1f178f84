-- ===== src/Apps/HostExamples/Laws.antt =====
-- The exit codes of the programs, whatever their frame.
use picomesh.Base.{ℕ, ◌≡◌, ◌∙◌, refl, arith}
use picomesh.Base.{◌==◌, leb, if◌then◌else◌}
use picomesh.Frame.{Frame, IsFrame, is_ok, max_payload_size}
use picomesh.Frame.Decode.{decode-encode}
use picomesh.ReliableQueue.{
  new_queue, enqueue, has_pending, fill_slot, next_due, due_slot, deadline_reached, acknowledge,
  free_slot, pending_count, count_active,
}
use picomesh.Base.{◌<◌, some, none, false}
use picomesh.NodeRegistry
use picomesh.NodeRegistry.{
  NodeRegistry, max_nodes, new_registry, seen_status, refresh, get, online_count,
}
use picomesh.NodeRegistry.View.{
  new_registry-IsValid, observe-IsValid, refresh-IsValid, get-new_registry, get-observe,
  get-refresh, timeout-refresh,
}
use picomesh.NodeRegistry.Count.{online_count-single}
use picomesh.Apps.HostExamples.{host_simulator, frame_codec, reliable_queue}

-- On a frame whose fields fit their C++ types the program returns 0 if the payload fits, and 2
-- otherwise, since the decoded length is then clamped.
pub frame_codec_lem :
    (f : Frame)
    → IsFrame f
    → frame_codec f ≡ (if leb f.payload_length max_payload_size then 0 else 2)
unfolding frame_codec is_ok
frame_codec_lem f fr = rw (decode-encode fr) (ground arith)

-- The program returns 0 if the payload fits, and 1 otherwise.
pub reliable_queue_lem :
    (f : Frame) → reliable_queue f ≡ (if leb f.payload_length max_payload_size then 0 else 1)
unfolding reliable_queue new_queue enqueue has_pending fill_slot next_due due_slot deadline_reached
    acknowledge free_slot pending_count count_active
reliable_queue_lem f = ground arith

-- The registry of the simulator, and the status of the one node it knows.
module _ (n s : ℕ) (known : n < max_nodes) where
  abbrev heard : NodeRegistry
  heard = (NodeRegistry.observe (new_registry 3000) n s 1000).0

  heard-IsValid : NodeRegistry.IsValid heard
  heard-IsValid = observe-IsValid n s 1000 (new_registry-IsValid 3000)

  heard-timeout : heard.timeout_ms ≡ 3000
  unfolding NodeRegistry.observe new_registry
  heard-timeout = ground arith

  get-heard : (m : ℕ) → get heard m ≡ (if m == n then some (seen_status n s 1000) else none)
  get-heard m = ground (
    arith,
    known,
    (get-observe (new_registry 3000) n s 1000 m (new_registry-IsValid 3000)).1,
    get-new_registry 3000 m,
  )

  get-first :
      (m : ℕ) → get (refresh heard 2500) m ≡ (if m == n then some (seen_status n s 1000) else none)
  get-first m = get-refresh heard 2500 m heard-IsValid ∙ ground (arith, get-heard m, heard-timeout)

  get-second :
      (m : ℕ)
      → get (refresh (refresh heard 2500) 4501) m
        ≡ (if m == n then some (record (seen_status n s 1000) { online = false }) else none)
  get-second m =
      get-refresh (refresh heard 2500) 4501 m (refresh-IsValid 2500 heard-IsValid)
      ∙ ground (arith, get-first m, timeout-refresh 2500 heard-IsValid, heard-timeout)

  online_counts :
      (online_count (refresh heard 2500) ≡ 1)
      × (online_count (refresh (refresh heard 2500) 4501) ≡ 0)
  online_counts = (
    online_count-single (refresh heard 2500) n (seen_status n s 1000) known get-first,
    online_count-single (refresh (refresh heard 2500) 4501) n
        (record (seen_status n s 1000) { online = false }) known get-second,
  )

-- On a frame of a node in range whose fields fit their C++ types, the program returns 0 and counts
-- one node online, and none after the timeout.
pub host_simulator_lem :
    (f : Frame) → IsFrame f → f.node_id < max_nodes → host_simulator f ≡ (0, 1, 0)
unfolding host_simulator is_ok
host_simulator_lem f fr known =
    let counts = online_counts f.node_id f.sequence known in
    rw (decode-encode fr, counts.0, counts.1) refl
