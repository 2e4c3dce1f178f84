-- ===== src/Arduino/Endpoint.antt =====
-- src/arduino/wire_transport.h and .cpp, class WirePeripheralEndpoint.
pub mod Interrupts
pub mod Exchange
pub mod Result
pub mod Answering
use picomesh.Base.{
  ℕ, zero, suc, ◌+◌, ◌≡◌, List, [], ◌∷◌, Bool, true, false, not, ◌||◌, Option, none, some,
}
use mathlib.Core.Option
use picomesh.Base.{◌==◌, ltb, if◌then◌else◌, length, take, set, replicate, copy_n, u8}
use picomesh.Frame.{Frame, DecodeError, is_ok, encode_frame, decode_frame, max_encoded_frame_size}
use picomesh.Arduino.TwoWire.{TwoWire, drain}

pub record WirePeripheralEndpoint : Type 0 where
  pub rx_bytes : List ℕ
  pub rx_length : ℕ
  pub rx_ready : Bool
  pub tx_bytes : List ℕ
  pub tx_length : ℕ

abbrev pub new_endpoint : WirePeripheralEndpoint
new_endpoint = record {
  rx_bytes = replicate max_encoded_frame_size 0;
  rx_length = 0;
  rx_ready = false;
  tx_bytes = replicate max_encoded_frame_size 0;
  tx_length = 0;
}

-- The interrupts are disabled while the bytes are copied.
unfoldable pub publish : WirePeripheralEndpoint → Frame → WirePeripheralEndpoint × Bool
publish e frame =
    let encoded = encode_frame frame in
    if (encoded.active == 0) || ltb max_encoded_frame_size encoded.active then (e, false) else (
      record e {
        tx_bytes = copy_n encoded.active encoded.bytes 0 e.tx_bytes 0;
        tx_length = u8 encoded.active;
      },
      true,
    )

-- The part of `poll` with the interrupts disabled.
unfoldable pub take_received : WirePeripheralEndpoint → WirePeripheralEndpoint × List ℕ × ℕ
take_received e = (
  record e { rx_ready = false; rx_length = 0 },
  copy_n e.rx_length e.rx_bytes 0 (replicate max_encoded_frame_size 0) 0,
  e.rx_length,
)

module _ (W : TwoWire) where
  -- The first loop of `receive_from_isr`; `left` is `count - i`.
  unfoldable pub receive_loop : ℕ → W.State → List ℕ → ℕ → W.State × List ℕ × ℕ
  receive_loop zero s rx_bytes count = (s, rx_bytes, count)
  receive_loop (suc left) s rx_bytes count =
      let next = W.read s in
      let fits = ltb count max_encoded_frame_size in
      let rest =
        receive_loop left next.0 (if fits then set rx_bytes count (u8 next.1) else rx_bytes)
          (if fits then u8 (count + 1) else count) in
      if W.available s == 0 then (s, rx_bytes, count) else rest

  unfoldable pub receive_from_isr :
      W.State → WirePeripheralEndpoint → ℕ → W.State × WirePeripheralEndpoint
  receive_from_isr s e count =
      let received = receive_loop count s e.rx_bytes 0 in
      (
        drain W (W.available received.0) received.0,
        record e { rx_bytes = received.1; rx_length = received.2; rx_ready = ltb 0 received.2 },
      )

  unfoldable pub request_from_isr : W.State → WirePeripheralEndpoint → W.State
  request_from_isr s e =
      if ltb 0 e.tx_length then (W.write s (take e.tx_length e.tx_bytes)).0 else s

  -- Transfers from the controller, each with the state of the bus and the count of the callback.
  unfoldable pub receive_all : WirePeripheralEndpoint → List (W.State × ℕ) → WirePeripheralEndpoint
  receive_all e [] = e
  receive_all e ((s, count) ∷ more) = receive_all (receive_from_isr s e count).1 more

  -- `poll`, with the transfers that are handled between its test and the part in which the
  -- interrupts are disabled, and with what `frame` and `*error` hold before the call; a null
  -- `error` is `none`.
  unfoldable pub poll :
      WirePeripheralEndpoint
      → Frame
      → Option DecodeError
      → List (W.State × ℕ)
      → WirePeripheralEndpoint × Bool × Frame × Option DecodeError
  poll e frame error between =
      if not e.rx_ready
      then (e, false, frame, error)
      else let (e', local, local_length) = take_received (receive_all e between) in
        let decoded = decode_frame (some local) local_length in
        if not (is_ok decoded)
        then (e', false, frame, Option.map (λ _. decoded.error) error)
        else (e', true, decoded.frame, Option.map (λ _. DecodeError.none) error)
