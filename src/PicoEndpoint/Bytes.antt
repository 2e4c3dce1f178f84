-- ===== src/PicoEndpoint/Bytes.antt =====
-- The receive buffers hold bytes, so what `poll` returns is a proper frame.
use picomesh.Base.{
  ℕ, zero, suc, ◌-◌, ◌<◌, ◌≡◌, refl, sym, subst, List, [], ◌∷◌, Bool, not, Option, some, arith,
}
use picomesh.Base.{
  get_or, set, replicate, if-elim, AllBytes, AllBytes-set, AllBytes-replicate, AllBytes-copy_n,
  length-copy_n, copy_n, u8, ltb,
}
use picomesh.Frame.{
  Frame, IsFrame, DecodeError, is_ok, decode_frame, encode_frame, max_encoded_frame_size,
}
use picomesh.Frame.Accepted.{IsCanonical}
use picomesh.Frame.Result.{decode_frame-IsCanonical}
use picomesh.PicoEndpoint.{
  I2cPeripheralEndpoint, Interrupt, new_endpoint, receive_byte, transmit_byte, stop, abort, overrun,
  handle_irq, handle_irqs, fill_inactive, switch_active, publish, take_ready, poll,
}
use picomesh.PicoEndpoint.Invariant.{IsValid}
use picomesh.PicoEndpoint.Interrupts.{KeepsTx}
use picomesh.PicoEndpoint.Reachable.{publish-switch_active}

pub record HoldsBytes (e : I2cPeripheralEndpoint) : Type 0 where
  pub all : (i : ℕ) → AllBytes (get_or e.rx_buffers i [])

set-AllBytes :
    (bs : List (List ℕ)) (w : ℕ) (new : List ℕ)
    → ((i : ℕ) → AllBytes (get_or bs i []))
    → AllBytes new
    → (i : ℕ) → AllBytes (get_or (set bs w new) i [])
set-AllBytes [] w new h hn i = h i
set-AllBytes (b ∷ bs) zero new h hn zero = hn
set-AllBytes (b ∷ bs) zero new h hn (suc i) = h (suc i)
set-AllBytes (b ∷ bs) (suc w) new h hn zero = h zero
set-AllBytes (b ∷ bs) (suc w) new h hn (suc i) = set-AllBytes bs w new (λ j. h (suc j)) hn i

same_buffers-HoldsBytes :
    {e e' : I2cPeripheralEndpoint} → e'.rx_buffers ≡ e.rx_buffers → HoldsBytes e → HoldsBytes e'
same_buffers-HoldsBytes same h = record {
  all = λ i. subst (λ bs. AllBytes (get_or bs i [])) (sym same) (h.all i);
}

receive_byte-HoldsBytes :
    {e : I2cPeripheralEndpoint} (d : ℕ) → HoldsBytes e → HoldsBytes (receive_byte e d)
unfolding receive_byte
receive_byte-HoldsBytes {e} d h =
    let w = e.rx_write_index in
    let k = get_or e.rx_lengths w 0 in
    let byte : u8 d < 256 = omega arith in
    if-elim HoldsBytes (ltb k max_encoded_frame_size)
      (record {
        all =
            set-AllBytes e.rx_buffers w (set (get_or e.rx_buffers w []) k (u8 d)) h.all
              (AllBytes-set (get_or e.rx_buffers w []) k (u8 d) (h.all w) byte);
      })
      (record { all = h.all })

transmit_byte-HoldsBytes :
    {e : I2cPeripheralEndpoint} → HoldsBytes e → HoldsBytes (transmit_byte e).0
unfolding transmit_byte
transmit_byte-HoldsBytes {e} h = same_buffers-HoldsBytes {e = e} (ground arith) h

stop-HoldsBytes : {e : I2cPeripheralEndpoint} → HoldsBytes e → HoldsBytes (stop e)
unfolding stop
stop-HoldsBytes {e} h = same_buffers-HoldsBytes {e = e} (ground arith) h

abort-HoldsBytes : {e : I2cPeripheralEndpoint} → HoldsBytes e → HoldsBytes (abort e)
unfolding abort
abort-HoldsBytes h = record { all = h.all }

overrun-HoldsBytes : {e : I2cPeripheralEndpoint} → HoldsBytes e → HoldsBytes (overrun e)
unfolding overrun
overrun-HoldsBytes h = record { all = h.all }

switch_active-rx :
    (e : I2cPeripheralEndpoint) (i : ℕ) (f : Frame)
    → (switch_active e i (encode_frame f)).0.rx_buffers ≡ e.rx_buffers
unfolding switch_active
switch_active-rx e i f = ground arith

handle_irq-HoldsBytes :
    {e : I2cPeripheralEndpoint} (i : Interrupt) → HoldsBytes e → HoldsBytes (handle_irq e i).0
unfolding handle_irq
handle_irq-HoldsBytes {e} i h =
    let r = if-elim HoldsBytes i.rx_full (receive_byte-HoldsBytes i.data_cmd h) h in
    let t = if-elim HoldsBytes i.rd_req (transmit_byte-HoldsBytes r) r in
    let s = if-elim HoldsBytes i.stop_det (stop-HoldsBytes t) t in
    let a = if-elim HoldsBytes i.tx_abrt (abort-HoldsBytes s) s in
    if-elim HoldsBytes i.rx_over (overrun-HoldsBytes a) a

pub handle_irqs-HoldsBytes :
    (is : List Interrupt) {e : I2cPeripheralEndpoint}
    → HoldsBytes e
    → HoldsBytes (handle_irqs e is).0
unfolding handle_irqs
handle_irqs-HoldsBytes [] h = h
handle_irqs-HoldsBytes (i ∷ is) h = handle_irqs-HoldsBytes is (handle_irq-HoldsBytes i h)

pub publish-HoldsBytes :
    {e : I2cPeripheralEndpoint} (f : Frame) (between : List Interrupt)
    → IsFrame f
    → IsValid e
    → HoldsBytes e
    → HoldsBytes (publish e f between).0
unfolding fill_inactive
publish-HoldsBytes {e} f between fr v h =
    let filled = fill_inactive e (1 - e.tx_active_index) (encode_frame f) in
    subst (λ (p : I2cPeripheralEndpoint × Bool). HoldsBytes p.0)
      (sym (publish-switch_active e f between fr v.active_index))
      (same_buffers-HoldsBytes
        (switch_active-rx (handle_irqs filled between).0 (1 - e.tx_active_index) f)
        (handle_irqs-HoldsBytes between (same_buffers-HoldsBytes {e' = filled} refl h)))

zeros-AllBytes : (i : ℕ) → AllBytes (get_or (replicate 2 (replicate 40 0)) i [])
zeros-AllBytes zero = AllBytes-replicate 40
zeros-AllBytes (suc zero) = AllBytes-replicate 40
zeros-AllBytes (suc (suc i)) = tt

pub new_endpoint-HoldsBytes : HoldsBytes new_endpoint
new_endpoint-HoldsBytes = record { all = zeros-AllBytes }

-- The endpoint keeps its bytes and what is to be sent, and the frame fits its types.
pub record Polls (e : I2cPeripheralEndpoint)
    (out : I2cPeripheralEndpoint × Bool × Frame × Option DecodeError) : Type 0 where
  pub bytes : HoldsBytes out.0
  pub keeps : KeepsTx e out.0
  pub same_position : out.0.tx_index ≡ e.tx_index
  pub canonical : IsCanonical out.2

take_ready-IsCanonical :
    {e : I2cPeripheralEndpoint}
    → IsValid e
    → HoldsBytes e
    → IsCanonical (decode_frame (some (take_ready e).1) (take_ready e).2).frame
unfolding take_ready
take_ready-IsCanonical {e} v h =
    let buffer = get_or e.rx_buffers e.rx_ready_index [] in
    let n = get_or e.rx_lengths e.rx_ready_index 0 in
    decode_frame-IsCanonical (copy_n n buffer 0 (replicate 40 0) 0) n
      (AllBytes-copy_n n buffer 0 (replicate 40 0) 0 (h.all e.rx_ready_index)
        (AllBytes-replicate 40))
      (omega (
        arith,
        v.rx_bounds e.rx_ready_index v.ready_index,
        length-copy_n n buffer 0 (replicate 40 0) 0,
      ))

pub poll-Polls :
    {e : I2cPeripheralEndpoint} {old : Frame} (error : Option DecodeError)
    → IsValid e
    → HoldsBytes e
    → IsCanonical old
    → Polls e (poll e old error)
unfolding poll take_ready
poll-Polls {e} {old} error v h c =
    let taken = take_ready e in
    let same : HoldsBytes taken.0 = same_buffers-HoldsBytes refl h in
    let kept : KeepsTx e taken.0 = record {
      same_active = refl;
      same_buffers = refl;
      same_lengths = refl;
    } in
    if-elim (Polls e) (not e.rx_ready)
      (record {
        bytes = h;
        keeps = record { same_active = refl; same_buffers = refl; same_lengths = refl };
        same_position = refl;
        canonical = c;
      })
      (if-elim (Polls e) (not (is_ok (decode_frame (some taken.1) taken.2)))
        (record { bytes = same; keeps = kept; same_position = refl; canonical = c })
        (record {
          bytes = same;
          keeps = kept;
          same_position = refl;
          canonical = take_ready-IsCanonical v h;
        }))
