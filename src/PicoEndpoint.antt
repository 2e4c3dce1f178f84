-- ===== src/PicoEndpoint.antt =====
-- ports/pico-sdk/picomesh_pico_transport.h and .cpp: the mailbox of the I2C peripheral, shared by
-- the application (`publish`, `poll`) and the interrupt handler.
pub mod Invariant
pub mod Buffers
pub mod Interrupts
pub mod Reachable
pub mod Mailbox
pub mod Reception
pub mod Overflow
pub mod Outgoing
pub mod Bytes
pub mod Active
use picomesh.Base.{
  ℕ, ◌+◌, ◌≡◌, List, [], ◌∷◌, ◌++◌, Bool, true, false, not, ◌||◌, ◌&&◌, Option, none, some, bit_xor,
}
use mathlib.Core.Option
use picomesh.Base.{◌==◌, ltb, if◌then◌else◌, get_or, set, replicate, copy_n, u8, u32}
use picomesh.Frame.{
  Frame, DecodeError, is_ok, EncodedFrame, encode_frame, decode_frame, max_encoded_frame_size,
}

pub record I2cPeripheralEndpoint : Type 0 where
  pub rx_buffers : List (List ℕ)
  pub rx_lengths : List ℕ
  pub rx_write_index : ℕ
  pub rx_ready_index : ℕ
  pub rx_ready : Bool
  pub tx_buffers : List (List ℕ)
  pub tx_lengths : List ℕ
  pub tx_active_index : ℕ
  pub tx_index : ℕ
  pub dropped_frames : ℕ

abbrev pub new_endpoint : I2cPeripheralEndpoint
new_endpoint = record {
  rx_buffers = replicate 2 (replicate max_encoded_frame_size 0);
  rx_lengths = replicate 2 0;
  rx_write_index = 0;
  rx_ready_index = 0;
  rx_ready = false;
  tx_buffers = replicate 2 (replicate max_encoded_frame_size 0);
  tx_lengths = replicate 2 0;
  tx_active_index = 0;
  tx_index = 0;
  dropped_frames = 0;
}

-- The interrupt status bits that the handler tests, and the data register.
pub record Interrupt : Type 0 where
  pub rx_full : Bool
  pub rd_req : Bool
  pub stop_det : Bool
  pub tx_abrt : Bool
  pub rx_over : Bool
  pub data_cmd : ℕ

-- `RX_FULL`
unfoldable pub receive_byte : I2cPeripheralEndpoint → ℕ → I2cPeripheralEndpoint
receive_byte e data_cmd =
    let byte = u8 data_cmd in
    let write_index = e.rx_write_index in
    let count = get_or e.rx_lengths write_index 0 in
    if ltb count max_encoded_frame_size
    then record e {
      rx_buffers =
          set e.rx_buffers write_index (set (get_or e.rx_buffers write_index []) count byte);
      rx_lengths = set e.rx_lengths write_index (u8 (count + 1));
    }
    else record e { dropped_frames = u32 (e.dropped_frames + 1) }

-- `RD_REQ`: the new state, with the byte written to the data register.
unfoldable pub transmit_byte : I2cPeripheralEndpoint → I2cPeripheralEndpoint × ℕ
transmit_byte e =
    let active = e.tx_active_index in
    if ltb e.tx_index (get_or e.tx_lengths active 0)
    then (
      record e { tx_index = u8 (e.tx_index + 1) },
      get_or (get_or e.tx_buffers active []) e.tx_index 0,
    )
    else (e, 0)

unfoldable pub complete_receive_from_isr : I2cPeripheralEndpoint → I2cPeripheralEndpoint
complete_receive_from_isr e =
    let write_index = e.rx_write_index in
    if get_or e.rx_lengths write_index 0 == 0
    then e
    else if e.rx_ready
    then record e {
      rx_lengths = set e.rx_lengths write_index 0;
      dropped_frames = u32 (e.dropped_frames + 1);
    }
    else let next = u8 (bit_xor write_index 1) in
      record e {
        rx_ready_index = write_index;
        rx_ready = true;
        rx_write_index = next;
        rx_lengths = set e.rx_lengths next 0;
      }

-- `STOP_DET`
unfoldable pub stop : I2cPeripheralEndpoint → I2cPeripheralEndpoint
unfolding complete_receive_from_isr
stop e = record (complete_receive_from_isr e) { tx_index = 0 }

-- `TX_ABRT`
unfoldable pub abort : I2cPeripheralEndpoint → I2cPeripheralEndpoint
abort e = record e { tx_index = 0 }

-- `RX_OVER`
unfoldable pub overrun : I2cPeripheralEndpoint → I2cPeripheralEndpoint
overrun e = record e { dropped_frames = u32 (e.dropped_frames + 1) }

-- The new state, with the byte written to the data register if one was. The reads that clear an
-- interrupt act on the hardware alone.
unfoldable pub handle_irq : I2cPeripheralEndpoint → Interrupt → I2cPeripheralEndpoint × Option ℕ
unfolding receive_byte transmit_byte stop abort overrun
handle_irq e status =
    let received = if status.rx_full then receive_byte e status.data_cmd else e in
    let sent = transmit_byte received in
    let requested = if status.rd_req then sent.0 else received in
    let stopped = if status.stop_det then stop requested else requested in
    let aborted = if status.tx_abrt then abort stopped else stopped in
    (
      if status.rx_over then overrun aborted else aborted,
      if status.rd_req then some sent.1 else none,
    )

-- The interrupts that are handled one after the other, with the bytes they transmitted.
unfoldable pub handle_irqs :
    I2cPeripheralEndpoint → List Interrupt → I2cPeripheralEndpoint × List (Option ℕ)
handle_irqs e [] = (e, [])
handle_irqs e (i ∷ is) =
    let now = handle_irq e i in let later = handle_irqs now.0 is in (later.0, now.1 ∷ later.1)

-- The part of `publish` before the interrupts are disabled: the bytes are copied to the buffer
-- that is not active.
unfoldable pub fill_inactive : I2cPeripheralEndpoint → ℕ → EncodedFrame → I2cPeripheralEndpoint
fill_inactive e inactive encoded = record e {
  tx_buffers =
      set e.tx_buffers inactive
        (copy_n encoded.active encoded.bytes 0 (get_or e.tx_buffers inactive []) 0);
}

-- The part with interrupts disabled.
unfoldable pub switch_active :
    I2cPeripheralEndpoint → ℕ → EncodedFrame → I2cPeripheralEndpoint × Bool
switch_active e inactive encoded = if not (e.tx_index == 0) then (e, false) else (
  record e {
    tx_lengths = set e.tx_lengths inactive (u8 encoded.active);
    tx_active_index = inactive;
  },
  true,
)

-- `publish`, with the interrupts that are handled between the copy and the part in which they
-- are disabled.
unfoldable pub publish :
    I2cPeripheralEndpoint → Frame → List Interrupt → I2cPeripheralEndpoint × Bool
publish e frame between =
    let encoded = encode_frame frame in
    if (encoded.active == 0) || ltb max_encoded_frame_size encoded.active
    then ((handle_irqs e between).0, false)
    else let inactive = u8 (bit_xor e.tx_active_index 1) in
      switch_active (handle_irqs (fill_inactive e inactive encoded) between).0 inactive encoded

-- The part of `poll` with interrupts disabled, when a frame is ready: what was received is copied
-- out and the mailbox is free.
unfoldable pub take_ready : I2cPeripheralEndpoint → I2cPeripheralEndpoint × List ℕ × ℕ
take_ready e =
    let ready_index = e.rx_ready_index in
    let local_length = get_or e.rx_lengths ready_index 0 in
    (
      record e { rx_lengths = set e.rx_lengths ready_index 0; rx_ready = false },
      copy_n local_length (get_or e.rx_buffers ready_index []) 0
          (replicate max_encoded_frame_size 0) 0,
      local_length,
    )

-- `poll`, with what `frame` and `*error` hold before the call; a null `error` is `none`.
unfoldable pub poll :
    I2cPeripheralEndpoint
    → Frame
    → Option DecodeError
    → I2cPeripheralEndpoint × Bool × Frame × Option DecodeError
poll e frame error =
    if not e.rx_ready
    then (e, false, frame, error)
    else let (e', taken, local_length) = take_ready e in
      let decoded = decode_frame (some taken) local_length in
      if not (is_ok decoded)
      then (e', false, frame, Option.map (λ _. decoded.error) error)
      else (e', true, decoded.frame, Option.map (λ _. DecodeError.none) error)
