-- ===== src/Arduino/Controller.antt =====
-- src/arduino/wire_transport.h and .cpp, class WireControllerTransport.
pub mod Laws
pub mod Sending
use picomesh.Base.{
  ℕ, zero, suc, ◌+◌, ◌≤◌, ◌≡◌, refl, sym, ◌∙◌, ap, List, [], ◌∷◌, ◌++◌, Bool, true, false, not,
  ◌&&◌, ◌||◌, none, some, arith, append_assoc,
}
use picomesh.Base.{◌==◌, ltb, if◌then◌else◌, length, take, drop, set, u8, Pointer}
use picomesh.Frame.{frame_length_from_prefix, max_encoded_frame_size}
use picomesh.Transport.{Transport}
use picomesh.Arduino.TwoWire.{TwoWire, IsLawful, drain}

module _ (W : TwoWire) where
  -- The object, with the state of the bus it refers to.
  pub record WireControllerTransport : Type 0 where
    pub wire : W.State
    pub address : ℕ

  unfoldable pub set_address : WireControllerTransport → ℕ → WireControllerTransport
  set_address t address = record t { address = address }

  -- `endTransmission` is not called after a partial write.
  unfoldable pub send : WireControllerTransport → Pointer → ℕ → WireControllerTransport × Bool
  send t none count = (t, false)
  send t (some bytes) count =
      if (count == 0) || ltb 255 count
      then (t, false)
      else let begun = W.begin_transmission t.wire t.address in
        let written = W.write begun (take count bytes) in
        let ended = W.end_transmission written.0 in
        if written.1 == count
        then (record t { wire = ended.0 }, ended.1 == 0)
        else (record t { wire = written.0 }, false)

  -- The first loop of `receive`; `left` is `capacity - count`.
  unfoldable pub copy_available : ℕ → W.State → List ℕ → ℕ → ℕ → W.State × List ℕ × ℕ
  copy_available zero s destination count available = (s, destination, count)
  copy_available (suc left) s destination count available =
      let next = W.read s in
      let rest =
        copy_available left next.0 (set destination count (u8 next.1)) (suc count) available in
      if not (W.available s == 0) && ltb count available then rest else (s, destination, count)

  unfoldable pub receive :
      WireControllerTransport → Pointer → ℕ → WireControllerTransport × Pointer × ℕ
  receive t none capacity = (t, none, 0)
  receive t (some destination) capacity =
      if capacity == 0
      then (t, some destination, 0)
      else let requested =
          u8 (if ltb capacity max_encoded_frame_size then capacity else max_encoded_frame_size) in
        let answer = W.request_from t.wire t.address requested in
        let copied = copy_available capacity answer.0 destination 0 answer.1 in
        let frame_length = frame_length_from_prefix (some copied.1) copied.2 in
        (
          record t { wire = drain W (W.available copied.0) copied.0 },
          some copied.1,
          if not (frame_length == 0) then frame_length else copied.2,
        )

  abbrev pub transport : Transport
  transport = record { State = WireControllerTransport; send = send; receive = receive }
