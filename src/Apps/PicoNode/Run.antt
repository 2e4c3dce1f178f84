-- ===== src/Apps/PicoNode/Run.antt =====
-- The Pico node over any number of interrupts and rounds.
use mathlib.Core.List.{mem-cons_self, mem-cons_of_mem}
use picomesh.Base.{
  ℕ, ◌<◌, ◌/◌, ◌≡◌, refl, sym, subst, List, [], ◌∷◌, ◌++◌, Bool, true, false, not, ◌&&◌, none,
  arith, Bool-cases, inl, inr, bit_and, drop, length, length-take, get_or, ◌≤◌,
}
use picomesh.Base.{u32, ◌==◌, leb, if◌then◌else◌, if-elim}
use picomesh.Frame.{Frame, IsFrame, default_frame}
use picomesh.Frame.Wire.{wire}
use picomesh.Frame.Result.{default_frame-IsCanonical}
use picomesh.Ack.{make_ack_frame, accepted, flag_ack_required}
use picomesh.Ack.Laws.{make_ack_frame-IsFrame}
use picomesh.PicoEndpoint.{
  new_endpoint, I2cPeripheralEndpoint, Interrupt, handle_irq, handle_irqs, publish, poll,
}
use picomesh.PicoEndpoint.Invariant.{IsValid}
use picomesh.PicoEndpoint.Interrupts.{handle_irqs-IsValid, handle_irqs-KeepsTx}
use picomesh.PicoEndpoint.Reachable.{publish-IsValid, poll-IsValid, new_endpoint-IsValid}
use picomesh.PicoEndpoint.Bytes.{
  HoldsBytes, handle_irqs-HoldsBytes, publish-HoldsBytes, new_endpoint-HoldsBytes, poll-Polls,
}
use picomesh.PicoEndpoint.Outgoing.{outgoing}
use picomesh.PicoEndpoint.Active.{
  active_bytes, outgoing-active_bytes, KeepsTx-active_bytes, publish-active_bytes, publish-empty,
}
use picomesh.Apps.HeartbeatNode.{heartbeat_frame}
use picomesh.Apps.HeartbeatNode.Laws.{heartbeat_frame-IsFrame}
use picomesh.Apps.HeartbeatNode.Run.{IsOwn, beats, answers}
use picomesh.Apps.PicoNode.{Node, publish_heartbeat, answer, beat, round, started, sub64}

-- A valid mailbox with a frame of the node in the active buffer.
record Sound (answered : List ℕ) (e : I2cPeripheralEndpoint) : Type 0 where
  valid : IsValid e
  bytes : HoldsBytes e
  own : IsOwn answered (active_bytes e)

record Speaks (answered : List ℕ) (n : Node) : Type 0 where
  sound : Sound answered n.endpoint
  sequence_byte : n.sequence_number < 256

handle_irqs-Sound :
    {e : I2cPeripheralEndpoint} {answered : List ℕ} (is : List Interrupt)
    → Sound answered e
    → Sound answered (handle_irqs e is).0
handle_irqs-Sound {e} {answered} is h = record {
  valid = handle_irqs-IsValid is h.valid;
  bytes = handle_irqs-HoldsBytes is h.bytes;
  own = subst (IsOwn answered) (sym (KeepsTx-active_bytes (handle_irqs-KeepsTx e is))) h.own;
}

-- Publishing a frame of its own, whether it succeeds or not.
publish-Sound :
    {e : I2cPeripheralEndpoint} {answered : List ℕ} (f : Frame) (between : List Interrupt)
    → IsFrame f
    → IsOwn answered (wire f)
    → Sound answered e
    → Sound answered (publish e f between).0
publish-Sound {e} {answered} f between fr mine h = record {
  valid = publish-IsValid f between fr h.valid;
  bytes = publish-HoldsBytes f between fr h.valid h.bytes;
  own =
      subst (IsOwn answered) (sym (publish-active_bytes e between fr h.valid))
        (if-elim (IsOwn answered) (publish e f between).1 mine h.own);
}

publish_heartbeat-Speaks :
    {n : Node} {answered : List ℕ} (time_us : ℕ) (between : List Interrupt)
    → Speaks answered n
    → Speaks answered (publish_heartbeat n time_us between)
unfolding publish_heartbeat
publish_heartbeat-Speaks {n} time_us between h =
    let fr = heartbeat_frame-IsFrame n.sequence_number (u32 (time_us / 1000)) h.sequence_byte in
    record {
      sound =
          publish-Sound (heartbeat_frame n.sequence_number (u32 (time_us / 1000))) between fr
            (beats n.sequence_number (u32 (time_us / 1000)) h.sequence_byte refl) h.sound;
      sequence_byte = omega arith;
    }

beat-Speaks :
    {n : Node} {answered : List ℕ} (time_us uptime_us : ℕ) (between : List Interrupt)
    → Speaks answered n
    → Speaks answered (beat n time_us uptime_us between)
unfolding beat
beat-Speaks {n} {answered} time_us uptime_us between h =
    if-elim (Speaks answered) (leb 1000 (sub64 (time_us / 1000) n.last_heartbeat_ms))
      (publish_heartbeat-Speaks uptime_us between
        (record { sound = h.sound; sequence_byte = h.sequence_byte }))
      h

IsOwn-cons : {answered bytes : List ℕ} (a : ℕ) → IsOwn answered bytes → IsOwn (a ∷ answered) bytes
IsOwn-cons a (beats s uptime byte same) = beats s uptime byte same
IsOwn-cons a (answers s b byte acknowledged heard same) =
    answers s b byte acknowledged (mem-cons_of_mem a heard) same

Sound-cons :
    {e : I2cPeripheralEndpoint} {answered : List ℕ} (a : ℕ)
    → Sound answered e
    → Sound (a ∷ answered) e
Sound-cons a h = record { valid = h.valid; bytes = h.bytes; own = IsOwn-cons a h.own }

answer-Speaks :
    {n : Node} {answered : List ℕ} (received : Bool) (f : Frame) (between : List Interrupt)
    → f.sequence < 256
    → Speaks answered n
    → Speaks
        ((if received && not (bit_and f.flags flag_ack_required == 0) then f.sequence ∷ [] else [])
          ++ answered)
        (if received then answer n f between else n)
unfolding answer
answer-Speaks false f between byte h = h
answer-Speaks {n} {answered} true f between byte h =
    elim (Bool-cases (not (bit_and f.flags flag_ack_required == 0))) [
      | inr silent ↦ rw silent h
      | inl asks ↦
          let fr =
            make_ack_frame-IsFrame 0 n.sequence_number f.sequence accepted (omega arith)
              h.sequence_byte byte in
          rw asks (record {
            sound =
                publish-Sound (make_ack_frame 0 n.sequence_number f.sequence accepted) between fr
                  (answers n.sequence_number f.sequence h.sequence_byte byte mem-cons_self refl)
                  (Sound-cons f.sequence h.sound);
            sequence_byte = omega arith;
          })
    ]

-- The sequence of the frame, if any, that one round answers.
abbrev acknowledged : Node → ℕ → ℕ → List Interrupt → List Interrupt → List ℕ
acknowledged n time_us uptime_us at_beat before_poll =
    let out =
      poll (handle_irqs (beat n time_us uptime_us at_beat).endpoint before_poll).0 default_frame
        none in
    if out.1 && not (bit_and out.2.flags flag_ack_required == 0) then out.2.sequence ∷ [] else []

round-Speaks :
    {n : Node} {answered : List ℕ} (time_us uptime_us : ℕ)
    (at_beat before_poll at_answer : List Interrupt)
    → Speaks answered n
    → Speaks
        (acknowledged n time_us uptime_us at_beat before_poll ++ answered)
        (round n time_us uptime_us at_beat before_poll at_answer)
unfolding round
round-Speaks {n} {answered} time_us uptime_us at_beat before_poll at_answer h =
    let b = beat-Speaks time_us uptime_us at_beat h in
    let ready = handle_irqs-Sound before_poll b.sound in
    let e = (handle_irqs (beat n time_us uptime_us at_beat).endpoint before_poll).0 in
    let out = poll e default_frame none in
    let p = poll-Polls none ready.valid ready.bytes default_frame-IsCanonical in
    answer-Speaks out.1 out.2 at_answer p.canonical.frame.sequence_byte (record {
      sound = record {
        valid = poll-IsValid default_frame none ready.valid;
        bytes = p.bytes;
        own = subst (IsOwn answered) (sym (KeepsTx-active_bytes p.keeps)) ready.own;
      };
      sequence_byte = b.sequence_byte;
    })

started-Speaks : (uptime_us : ℕ) (between : List Interrupt) → Speaks [] (started uptime_us between)
unfolding started
started-Speaks uptime_us between =
    let f = heartbeat_frame 0 (u32 (uptime_us / 1000)) in
    let fr = heartbeat_frame-IsFrame 0 (u32 (uptime_us / 1000)) (omega arith) in
    record {
      sound = record {
        valid = publish-IsValid f between fr new_endpoint-IsValid;
        bytes = publish-HoldsBytes f between fr new_endpoint-IsValid new_endpoint-HoldsBytes;
        own =
            beats 0 (u32 (uptime_us / 1000)) (omega arith)
              (publish-empty new_endpoint between fr new_endpoint-IsValid refl);
      };
      sequence_byte = omega arith;
    }

-- An interrupt, or a round of the loop with its readings of the clock and its interrupts.
pub data Event : Type 0 where
  irq : Interrupt → Event
  rounds : ℕ → ℕ → List Interrupt → List Interrupt → List Interrupt → Event

-- The node after these events, with the sequences that it has answered, the last first.
pub run : Node → List ℕ → List Event → Node × List ℕ
run n answered [] = (n, answered)
run n answered (irq i ∷ events) =
    run (record n { endpoint = (handle_irq n.endpoint i).0 }) answered events
run n answered (rounds time_us uptime_us at_beat before_poll at_answer ∷ events) =
    run (round n time_us uptime_us at_beat before_poll at_answer)
      (acknowledged n time_us uptime_us at_beat before_poll ++ answered) events

run-Speaks :
    (events : List Event) {n : Node} {answered : List ℕ}
    → Speaks answered n
    → Speaks (run n answered events).1 (run n answered events).0
unfolding run handle_irqs
run-Speaks [] h = h
run-Speaks (irq i ∷ events) {n} h =
    run-Speaks events
      (record { sound = handle_irqs-Sound (i ∷ []) h.sound; sequence_byte = h.sequence_byte })
run-Speaks (rounds time_us uptime_us at_beat before_poll at_answer ∷ events) h =
    run-Speaks events (round-Speaks time_us uptime_us at_beat before_poll at_answer h)

position-le : (e : I2cPeripheralEndpoint) → IsValid e → e.tx_index ≤ length (active_bytes e)
position-le e v = omega (
  arith,
  v.position,
  v.tx_bounds e.tx_active_index v.active_index,
  v.tx_storage e.tx_active_index v.active_index,
  length-take (get_or e.tx_lengths e.tx_active_index 0) (get_or e.tx_buffers e.tx_active_index []),
)

-- After the start of the Pico node and any interrupts and rounds of its loop, with any clock
-- readings and any interrupts during the calls of `publish` and between those of `publish` and
-- `poll`: what is still to be sent is what stands behind the position, within it, of the wire
-- format of a heartbeat of the node, or of its acknowledgement of a sequence byte that it took
-- from a received frame which asks for it.
pub run-outgoing :
    (uptime_us : ℕ) (between : List Interrupt) (events : List Event)
    → let after = run (started uptime_us between) [] events in
      (bytes : List ℕ) × IsOwn after.1 bytes
      × (after.0.endpoint.tx_index ≤ length bytes)
      × (outgoing after.0.endpoint ≡ drop after.0.endpoint.tx_index bytes)
run-outgoing uptime_us between events =
    let after = run (started uptime_us between) [] events in
    let sound = (run-Speaks events (started-Speaks uptime_us between)).sound in
    (
      active_bytes after.0.endpoint,
      sound.own,
      position-le after.0.endpoint sound.valid,
      outgoing-active_bytes after.0.endpoint,
    )
