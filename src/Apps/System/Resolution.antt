-- ===== src/Apps/System/Resolution.antt =====
-- What one reception of the command controller can resolve.
use mathlib.Core.List.{Mem}
use picomesh.Base.{ℕ, ◌≡◌, ◌⊎◌, inl, inr, refl, ◌∙◌, ap, List, [], ◌++◌, false, some, none, arith}
use picomesh.Base.{replicate, Pointer}
use picomesh.Frame.{DecodeResult, DecodeError, is_ok, decode_frame}
use picomesh.Frame.Decode.{sent}
use picomesh.Ack.{accepted}
use picomesh.Ack.Laws.{make_ack_frame-IsFrame}
use picomesh.ReliableQueue.{ReliableQueue, acknowledge}
use picomesh.Arduino.TwoWire.{TwoWire, IsLawful}
use picomesh.Arduino.Controller.{transport, receive}
use picomesh.Arduino.Controller.Laws.{delivered, receive-wire, receive-nothing}
use picomesh.Apps.HeartbeatNode.{heartbeat_frame}
use picomesh.Apps.HeartbeatNode.Laws.{heartbeat_frame-IsFrame}
use picomesh.Apps.HeartbeatNode.Run.{IsOwn, beats, answers}
use picomesh.Apps.CommandController.{Controller, resolve, receive_acknowledgement}
use picomesh.Apps.CommandController.Laws.{receive_acknowledgement-make}

decode_frame-zero : (p : Pointer) → is_ok (decode_frame p 0) ≡ false
unfolding decode_frame is_ok
decode_frame-zero none = refl
decode_frame-zero (some bytes) = refl

resolve-refused : (q : ReliableQueue) (d : DecodeResult) → is_ok d ≡ false → resolve q d ≡ q
unfolding resolve
resolve-refused q d e = rw e refl

-- A heartbeat is no acknowledgement.
resolve-heartbeat_frame :
    (q : ReliableQueue) (s uptime : ℕ)
    → resolve q (record { frame = sent (heartbeat_frame s uptime); error = DecodeError.none }) ≡ q
unfolding resolve is_ok heartbeat_frame
resolve-heartbeat_frame q s uptime = refl

module _ (V : TwoWire) (laws_v : IsLawful V) (c : Controller (transport V)) where
  -- Nothing is resolved, or one of the sequences that the node has acknowledged.
  abbrev pub Resolved : List ℕ → Type 0
  Resolved answered =
      ((receive_acknowledgement (transport V) c).queue ≡ c.queue)
      ⊎ ((a : ℕ) × Mem a answered
          × ((receive_acknowledgement (transport V) c).queue
              ≡ (acknowledge c.queue 0 a accepted).0))

  pub nothing-Resolved :
      (answered : List ℕ) → delivered V laws_v c.transport 40 ≡ [] → Resolved answered
  unfolding receive_acknowledgement
  nothing-Resolved answered e =
      let out = receive V c.transport (some (replicate 40 0)) 40 in
      inl (
        ap (λ n. resolve c.queue (decode_frame out.1 n))
          (receive-nothing V laws_v c.transport (replicate 40 0) 40 (omega arith) (omega arith) e)
        ∙ resolve-refused c.queue (decode_frame out.1 0) (decode_frame-zero out.1))

  pub IsOwn-Resolved :
      {answered bytes : List ℕ} (padding : List ℕ)
      → IsOwn answered bytes
      → delivered V laws_v c.transport 40 ≡ bytes ++ padding
      → Resolved answered
  unfolding receive_acknowledgement
  IsOwn-Resolved padding (beats s uptime byte same) e = inl (
      ap (resolve c.queue)
        (receive-wire V laws_v c.transport (replicate 40 0) padding 40
          (heartbeat_frame-IsFrame s uptime byte) (omega arith)
          (e ∙ ap (λ bs. bs ++ padding) same)).0
      ∙ resolve-heartbeat_frame c.queue s uptime)
  IsOwn-Resolved padding (answers s a byte acknowledged_byte heard same) e = inr (
    a,
    heard,
    receive_acknowledgement-make (transport V) c 0 s a accepted
        (receive-wire V laws_v c.transport (replicate 40 0) padding 40
          (make_ack_frame-IsFrame 0 s a accepted (omega arith) byte acknowledged_byte) (omega arith)
          (e ∙ ap (λ bs. bs ++ padding) same)).0,
  )
