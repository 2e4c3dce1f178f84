-- ===== src/Apps/HeartbeatNode/Run.antt =====
-- The heartbeat node over any number of transfers and loops.
use mathlib.Core.List.{Mem, mem-cons_self}
use picomesh.Base.{
  ℕ, ◌<◌, ◌≡◌, sym, subst, List, [], ◌∷◌, ◌++◌, Bool, true, false, not, ◌&&◌, none, arith,
  Bool-cases, inl, inr, bit_and,
}
use picomesh.Base.{◌==◌, leb, if◌then◌else◌, if-elim, sub32}
use picomesh.Frame.{Frame, default_frame}
use picomesh.Frame.Wire.{wire}
use picomesh.Frame.Result.{default_frame-IsCanonical}
use picomesh.Ack.{make_ack_frame, accepted, flag_ack_required}
use picomesh.Ack.Laws.{make_ack_frame-IsFrame}
use picomesh.Arduino.TwoWire.{TwoWire, IsLawful}
use picomesh.Arduino.Endpoint.{receive_from_isr, poll}
use picomesh.Arduino.Endpoint.Interrupts.{receive_from_isr-IsValid, new_endpoint-IsValid}
use picomesh.Arduino.Endpoint.Exchange.{outgoing, publish_lem}
use picomesh.Arduino.Endpoint.Result.{poll-Polls}
use picomesh.Apps.HeartbeatNode.{
  Node, heartbeat_frame, publish_heartbeat, setup, answer, beat, loop,
}
use picomesh.Apps.HeartbeatNode.Laws.{IsSafe, heartbeat_frame-IsFrame}

-- The wire format of a heartbeat of the node, or of its acknowledgement of one of the sequences
-- that it has acknowledged.
pub data IsOwn (answered : List ℕ) (bytes : List ℕ) : Type 0 where
  beats : (s uptime : ℕ) → s < 256 → bytes ≡ wire (heartbeat_frame s uptime) → IsOwn answered bytes
  answers :
      (s a : ℕ)
      → s < 256
      → a < 256
      → Mem a answered
      → bytes ≡ wire (make_ack_frame 0 s a accepted)
      → IsOwn answered bytes

-- A safe node that is to send a frame of its own.
pub record Speaks (answered : List ℕ) (n : Node) : Type 0 where
  pub safe : IsSafe n
  pub own : IsOwn answered (outgoing n.endpoint)

publish_heartbeat-Speaks :
    {n : Node} (answered : List ℕ) (uptime : ℕ)
    → IsSafe n
    → Speaks answered (publish_heartbeat n uptime)
unfolding publish_heartbeat
publish_heartbeat-Speaks {n} answered uptime h =
    let p =
      publish_lem h.valid (heartbeat_frame-IsFrame n.sequence_number uptime h.sequence_byte) in
    record {
      safe = record { valid = p.1; sequence_byte = omega arith };
      own = beats n.sequence_number uptime h.sequence_byte p.2;
    }

beat-Speaks :
    {n : Node} {answered : List ℕ} (now uptime : ℕ)
    → Speaks answered n
    → Speaks answered (beat n now uptime)
unfolding beat
beat-Speaks {n} {answered} now uptime h =
    if-elim (Speaks answered) (leb 1000 (sub32 now n.last_heartbeat_ms))
      (publish_heartbeat-Speaks answered uptime
        (record { valid = h.safe.valid; sequence_byte = h.safe.sequence_byte }))
      h

answer-Speaks :
    {n : Node} {answered : List ℕ} (received : Bool) (f : Frame)
    → f.sequence < 256
    → Speaks answered n
    → Speaks
        ((if received && not (bit_and f.flags flag_ack_required == 0) then f.sequence ∷ [] else [])
          ++ answered)
        (if received then answer n f else n)
unfolding answer
answer-Speaks false f byte h = h
answer-Speaks {n} {answered} true f byte h =
    elim (Bool-cases (not (bit_and f.flags flag_ack_required == 0))) [
      | inr silent ↦ rw silent h
      | inl asks ↦
          let p = publish_lem h.safe.valid (
            make_ack_frame-IsFrame 0 n.sequence_number f.sequence accepted (omega arith)
              h.safe.sequence_byte byte) in
          rw asks (record {
            safe = record { valid = p.1; sequence_byte = omega arith };
            own = answers n.sequence_number f.sequence h.safe.sequence_byte byte mem-cons_self p.2;
          })
    ]

pub setup-Speaks : (uptime : ℕ) → Speaks [] (setup uptime)
unfolding setup
setup-Speaks uptime =
    publish_heartbeat-Speaks [] uptime
      (record { valid = new_endpoint-IsValid; sequence_byte = omega arith })

-- What happens to the node: a transfer with the state of the bus and its count, or a `loop` with
-- the two readings of the clock and the transfers during its `poll`.
pub data Event (W : TwoWire) : Type 0 where
  hears : W.State → ℕ → Event W
  loops : ℕ → ℕ → List (W.State × ℕ) → Event W

module _ (W : TwoWire) where
  -- The sequence of the frame, if any, that one `loop` acknowledges.
  abbrev pub acknowledged : Node → ℕ → ℕ → List (W.State × ℕ) → List ℕ
  acknowledged n now uptime between =
      let out = poll W (beat n now uptime).endpoint default_frame none between in
      if out.1 && not (bit_and out.2.flags flag_ack_required == 0) then out.2.sequence ∷ [] else []

  -- The node after these events, with the sequences that it has acknowledged, the last first.
  pub run : Node → List ℕ → List (Event W) → Node × List ℕ
  run n answered [] = (n, answered)
  run n answered (hears s count ∷ events) =
      run (record n { endpoint = (receive_from_isr W s n.endpoint count).1 }) answered events
  run n answered (loops now uptime between ∷ events) =
      run (loop W n now uptime between) (acknowledged n now uptime between ++ answered) events

module _ (W : TwoWire) (laws : IsLawful W) where
  pub loop-Speaks :
      {n : Node} {answered : List ℕ} (now uptime : ℕ) (between : List (W.State × ℕ))
      → Speaks answered n
      → Speaks (acknowledged W n now uptime between ++ answered) (loop W n now uptime between)
  unfolding loop
  loop-Speaks {n} {answered} now uptime between h =
      let b = beat-Speaks now uptime h in
      let out = poll W (beat n now uptime).endpoint default_frame none between in
      let p = poll-Polls W laws none between b.safe.valid default_frame-IsCanonical in
      answer-Speaks out.1 out.2 p.canonical.frame.sequence_byte (record {
        safe = record { valid = p.valid; sequence_byte = b.safe.sequence_byte };
        own = subst (IsOwn answered) (sym p.same) b.own;
      })

  pub receive_from_isr-Speaks :
      {n : Node} {answered : List ℕ} (s : W.State) (count : ℕ)
      → Speaks answered n
      → Speaks answered (record n { endpoint = (receive_from_isr W s n.endpoint count).1 })
  unfolding receive_from_isr
  receive_from_isr-Speaks s count h = record {
    safe = record {
      valid = receive_from_isr-IsValid W laws h.safe.valid s count;
      sequence_byte = h.safe.sequence_byte;
    };
    own = h.own;
  }

  run-Speaks :
      (events : List (Event W)) {n : Node} {answered : List ℕ}
      → Speaks answered n
      → Speaks (run W n answered events).1 (run W n answered events).0
  unfolding run
  run-Speaks [] h = h
  run-Speaks (hears s count ∷ events) h = run-Speaks events (receive_from_isr-Speaks s count h)
  run-Speaks (loops now uptime between ∷ events) h =
      run-Speaks events (loop-Speaks now uptime between h)

  -- On a lawful bus, after `setup`, any transfers to the node, and any loops at any times with
  -- any transfers during their `poll`: what the node has to send is the wire format of a
  -- heartbeat of its own, or of its acknowledgement of a sequence byte that it took from a
  -- received frame which asks for it.
  pub run-IsOwn :
      (start : ℕ) (events : List (Event W))
      → let after = run W (setup start) [] events in IsOwn after.1 (outgoing after.0.endpoint)
  run-IsOwn start events = (run-Speaks events (setup-Speaks start)).own
