-- ===== src/PicoTransport/Uart.antt =====
-- ports/pico-sdk/picomesh_pico_transport.h and .cpp, class UartTransport.
pub mod Laws
use picomesh.Base.{ℕ, zero, suc, ◌+◌, List, Bool, true, false, Option, none, some}
use picomesh.Base.{◌==◌, if◌then◌else◌, take, set, u8, Pointer}
use picomesh.Transport.{Transport}
use picomesh.PicoTransport.Sdk.{PicoSdk}

module _ (S : PicoSdk) where
  -- The object, with the state of the hardware; a null `instance_` is `none`.
  pub record UartTransport : Type 0 where
    pub hardware : S.State
    pub instance_ptr : Option S.Uart

  unfoldable pub send_to : UartTransport → S.Uart → List ℕ → ℕ → UartTransport × Bool
  send_to t i bytes count =
      if count == 0
      then (t, false)
      else (record t { hardware = S.uart_write_blocking t.hardware i (take count bytes) }, true)

  -- The loop of `receive`; `left` is `capacity - count`.
  unfoldable pub read_waiting : ℕ → S.State → S.Uart → List ℕ → ℕ → S.State × List ℕ × ℕ
  read_waiting zero s i destination count = (s, destination, count)
  read_waiting (suc left) s i destination count =
      let next = S.uart_getc s i in
      let rest = read_waiting left next.0 i (set destination count (u8 next.1)) (count + 1) in
      if S.uart_is_readable s i then rest else (s, destination, count)

  unfoldable pub receive_from : UartTransport → S.Uart → List ℕ → ℕ → UartTransport × Pointer × ℕ
  receive_from t i destination capacity =
      if capacity == 0
      then (t, some destination, 0)
      else let out = read_waiting capacity t.hardware i destination 0 in
        (record t { hardware = out.0 }, some out.1, out.2)

  unfoldable pub send : UartTransport → Pointer → ℕ → UartTransport × Bool
  unfolding send_to
  send t none count = (t, false)
  send t (some bytes) count = elim t.instance_ptr [
    | none ↦ (t, false)
    | some i ↦ send_to t i bytes count
  ]

  unfoldable pub receive : UartTransport → Pointer → ℕ → UartTransport × Pointer × ℕ
  unfolding receive_from
  receive t none capacity = (t, none, 0)
  receive t (some destination) capacity = elim t.instance_ptr [
    | none ↦ (t, some destination, 0)
    | some i ↦ receive_from t i destination capacity
  ]

  abbrev pub transport : Transport
  transport = record { State = UartTransport; send = send; receive = receive }
