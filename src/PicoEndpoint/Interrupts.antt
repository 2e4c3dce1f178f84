-- ===== src/PicoEndpoint/Interrupts.antt =====
-- The invariant under the interrupt handler, and what the handler leaves alone.
use picomesh.Base.{ℕ, ◌≡◌, refl, ◌∙◌, List, [], ◌∷◌, Bool, true, false, arith}
use picomesh.Base.{if◌then◌else◌}
use picomesh.PicoEndpoint.{
  I2cPeripheralEndpoint, Interrupt, receive_byte, transmit_byte, complete_receive_from_isr, stop,
  abort, overrun, handle_irq, handle_irqs,
}
use picomesh.PicoEndpoint.Invariant.{
  IsValid, at_position, receive_byte-IsValid, transmit_byte-IsValid,
  complete_receive_from_isr-IsValid, abort-IsValid, overrun-IsValid,
}

pub if-IsValid :
    (b : Bool) {x y : I2cPeripheralEndpoint} → IsValid x → IsValid y → IsValid (if b then x else y)
if-IsValid true vx vy = vx
if-IsValid false vx vy = vy

pub stop-IsValid : {e : I2cPeripheralEndpoint} → IsValid e → IsValid (stop e)
unfolding stop
stop-IsValid v = at_position (complete_receive_from_isr-IsValid v) 0 (omega arith)

pub handle_irq-IsValid :
    {e : I2cPeripheralEndpoint} (i : Interrupt) → IsValid e → IsValid (handle_irq e i).0
unfolding handle_irq
handle_irq-IsValid i v =
    let r = if-IsValid i.rx_full (receive_byte-IsValid v i.data_cmd) v in
    let t = if-IsValid i.rd_req (transmit_byte-IsValid r) r in
    let s = if-IsValid i.stop_det (stop-IsValid t) t in
    let a = if-IsValid i.tx_abrt (abort-IsValid s) s in if-IsValid i.rx_over (overrun-IsValid a) a

pub handle_irqs-IsValid :
    (is : List Interrupt) {e : I2cPeripheralEndpoint} → IsValid e → IsValid (handle_irqs e is).0
unfolding handle_irqs
handle_irqs-IsValid [] v = v
handle_irqs-IsValid (i ∷ is) v = handle_irqs-IsValid is (handle_irq-IsValid i v)

-- What the interrupts leave alone of the buffers to transmit.
pub record KeepsTx (e e' : I2cPeripheralEndpoint) : Type 0 where
  pub same_active : e'.tx_active_index ≡ e.tx_active_index
  pub same_buffers : e'.tx_buffers ≡ e.tx_buffers
  pub same_lengths : e'.tx_lengths ≡ e.tx_lengths

KeepsTx-trans : {e e' e'' : I2cPeripheralEndpoint} → KeepsTx e e' → KeepsTx e' e'' → KeepsTx e e''
KeepsTx-trans h k = record {
  same_active = k.same_active ∙ h.same_active;
  same_buffers = k.same_buffers ∙ h.same_buffers;
  same_lengths = k.same_lengths ∙ h.same_lengths;
}

if-KeepsTx :
    (b : Bool) {e x y : I2cPeripheralEndpoint}
    → KeepsTx e y
    → KeepsTx y x
    → KeepsTx e (if b then x else y)
if-KeepsTx true h k = KeepsTx-trans h k
if-KeepsTx false h k = h

receive_byte-KeepsTx : (e : I2cPeripheralEndpoint) (d : ℕ) → KeepsTx e (receive_byte e d)
unfolding receive_byte
receive_byte-KeepsTx e d = record {
  same_active = ground arith;
  same_buffers = ground arith;
  same_lengths = ground arith;
}

transmit_byte-KeepsTx : (e : I2cPeripheralEndpoint) → KeepsTx e (transmit_byte e).0
unfolding transmit_byte
transmit_byte-KeepsTx e = record {
  same_active = ground arith;
  same_buffers = ground arith;
  same_lengths = ground arith;
}

stop-KeepsTx : (e : I2cPeripheralEndpoint) → KeepsTx e (stop e)
unfolding stop complete_receive_from_isr
stop-KeepsTx e = record {
  same_active = ground arith;
  same_buffers = ground arith;
  same_lengths = ground arith;
}

abort-KeepsTx : (e : I2cPeripheralEndpoint) → KeepsTx e (abort e)
unfolding abort
abort-KeepsTx e = record { same_active = refl; same_buffers = refl; same_lengths = refl }

overrun-KeepsTx : (e : I2cPeripheralEndpoint) → KeepsTx e (overrun e)
unfolding overrun
overrun-KeepsTx e = record { same_active = refl; same_buffers = refl; same_lengths = refl }

handle_irq-KeepsTx : (e : I2cPeripheralEndpoint) (i : Interrupt) → KeepsTx e (handle_irq e i).0
unfolding handle_irq
handle_irq-KeepsTx e i =
    let here : KeepsTx e e = record {
      same_active = refl;
      same_buffers = refl;
      same_lengths = refl;
    } in
    let r = if-KeepsTx i.rx_full here (receive_byte-KeepsTx e i.data_cmd) in
    let t = if-KeepsTx i.rd_req r (transmit_byte-KeepsTx _) in
    let s = if-KeepsTx i.stop_det t (stop-KeepsTx _) in
    let a = if-KeepsTx i.tx_abrt s (abort-KeepsTx _) in if-KeepsTx i.rx_over a (overrun-KeepsTx _)

pub handle_irqs-KeepsTx :
    (e : I2cPeripheralEndpoint) (is : List Interrupt) → KeepsTx e (handle_irqs e is).0
unfolding handle_irqs
handle_irqs-KeepsTx e [] = record { same_active = refl; same_buffers = refl; same_lengths = refl }
handle_irqs-KeepsTx e (i ∷ is) =
    KeepsTx-trans (handle_irq-KeepsTx e i) (handle_irqs-KeepsTx (handle_irq e i).0 is)
