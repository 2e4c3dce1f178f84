-- ===== src/PicoTransport/I2c.antt =====
-- ports/pico-sdk/picomesh_pico_transport.h and .cpp, class I2cControllerTransport.
pub mod Laws
use picomesh.Base.{
  ℕ, zero, suc, ◌+◌, ◌≤◌, ◌≡◌, refl, sym, ◌∙◌, ap, ap₂, subst, List, [], ◌∷◌, ◌++◌, Bool, true,
  false, not, ◌&&◌, ◌||◌, Option, none, some, arith, append_assoc,
}
use picomesh.Base.{
  ◌==◌, ltb, lt→ltb, if◌then◌else◌, length, take, drop, copy_n, copy_n_lem, take_all, length-append,
  Pointer,
}
use picomesh.Frame.{Frame, IsFrame, DecodeError, decode_frame, frame_length_from_prefix}
use picomesh.Frame.Wire.{wire, length-wire}
use picomesh.Frame.Decode.{sent, decode_frame-wire}
use picomesh.Frame.Prefix.{frame_length_from_prefix-wire, frame_length_from_prefix_bounds}
use picomesh.Transport.{Transport, IsBounded, WritesWithin}
use picomesh.PicoTransport.Sdk.{PicoSdk, IsLawful, ℤ, pos, negsuc, to_int, int_eq}

-- `if (received <= 0) return 0;` and what follows it.
unfoldable pub received_count : ℤ → Pointer → ℕ
received_count (negsuc n) destination = 0
received_count (pos count) destination =
    if count == 0
    then 0
    else let frame_length = frame_length_from_prefix destination count in
      if not (frame_length == 0) then frame_length else count

module _ (S : PicoSdk) where
  -- The object, with the state of the hardware; a null `instance_` is `none`.
  pub record I2cControllerTransport : Type 0 where
    pub hardware : S.State
    pub instance_ptr : Option S.I2c
    pub address : ℕ

  unfoldable pub set_address : I2cControllerTransport → ℕ → I2cControllerTransport
  set_address t address = record t { address = address }

  -- The parts of `send` and of `receive` behind the tests for null.
  unfoldable pub send_to :
      I2cControllerTransport → S.I2c → List ℕ → ℕ → I2cControllerTransport × Bool
  send_to t i bytes count =
      if count == 0
      then (t, false)
      else let written = S.i2c_write_blocking t.hardware i t.address (take count bytes) in
        (record t { hardware = written.0 }, int_eq written.1 (to_int count))

  unfoldable pub receive_from :
      I2cControllerTransport → S.I2c → List ℕ → ℕ → I2cControllerTransport × Pointer × ℕ
  receive_from t i destination capacity =
      if capacity == 0
      then (t, some destination, 0)
      else let answer = S.i2c_read_blocking t.hardware i t.address capacity in
        let stored = copy_n (length answer.1) answer.1 0 destination 0 in
        (record t { hardware = answer.0 }, some stored, received_count answer.2 (some stored))

  unfoldable pub send : I2cControllerTransport → Pointer → ℕ → I2cControllerTransport × Bool
  unfolding send_to
  send t none count = (t, false)
  send t (some bytes) count = elim t.instance_ptr [
    | none ↦ (t, false)
    | some i ↦ send_to t i bytes count
  ]

  unfoldable pub receive :
      I2cControllerTransport → Pointer → ℕ → I2cControllerTransport × Pointer × ℕ
  unfolding receive_from
  receive t none capacity = (t, none, 0)
  receive t (some destination) capacity = elim t.instance_ptr [
    | none ↦ (t, some destination, 0)
    | some i ↦ receive_from t i destination capacity
  ]

  abbrev pub transport : Transport
  transport = record { State = I2cControllerTransport; send = send; receive = receive }
