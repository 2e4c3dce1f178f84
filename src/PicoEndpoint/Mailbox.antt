-- ===== src/PicoEndpoint/Mailbox.antt =====
-- What is received: the buffer that is ready, and the one that is being filled.
use picomesh.Base.{
  ℕ, ◌+◌, ◌<◌, ◌≡◌, refl, ◌∙◌, List, [], ◌∷◌, Bool, true, false, Option, none, some, arith,
}
use picomesh.Base.{get_or, set, take, length, get_or-set, u8, if◌then◌else◌}
use picomesh.PicoEndpoint.{
  I2cPeripheralEndpoint, Interrupt, receive_byte, transmit_byte, complete_receive_from_isr, stop,
  abort, overrun, handle_irq, handle_irqs,
}
use picomesh.PicoEndpoint.Invariant.{
  IsValid, receive_byte-IsValid, transmit_byte-IsValid, abort-IsValid, overrun-IsValid,
}
use picomesh.PicoEndpoint.Interrupts.{stop-IsValid}

-- What is ready for the application.
unfoldable pub mailbox : I2cPeripheralEndpoint → Option (List ℕ)
mailbox e =
    if e.rx_ready
    then some
        (take (get_or e.rx_lengths e.rx_ready_index 0) (get_or e.rx_buffers e.rx_ready_index []))
    else none

-- How many bytes of the present transfer have been stored, and which.
abbrev pub stored : I2cPeripheralEndpoint → ℕ
stored e = get_or e.rx_lengths e.rx_write_index 0

unfoldable pub arriving : I2cPeripheralEndpoint → List ℕ
arriving e = take (stored e) (get_or e.rx_buffers e.rx_write_index [])

-- Once something is ready, the handler neither takes it back nor changes it.
record KeepsReady (e e' : I2cPeripheralEndpoint) : Type 0 where
  still : e'.rx_ready ≡ true
  same : mailbox e' ≡ mailbox e

KeepsReady-trans :
    {e e' e'' : I2cPeripheralEndpoint} → KeepsReady e e' → KeepsReady e' e'' → KeepsReady e e''
KeepsReady-trans h k = record { still = k.still; same = k.same ∙ h.same }

module _ {e : I2cPeripheralEndpoint} (v : IsValid e) (ready : e.rx_ready ≡ true) where
  receive_byte-KeepsReady : (d : ℕ) → KeepsReady e (receive_byte e d)
  unfolding receive_byte mailbox
  receive_byte-KeepsReady d = record {
    still = ground (arith, ready);
    same = ground (
      arith,
      ready,
      v.apart,
      get_or-set e.rx_lengths w e.rx_ready_index (u8 (stored e + 1)) 0 wl,
      get_or-set e.rx_buffers w e.rx_ready_index (set (get_or e.rx_buffers w []) (stored e) (u8 d))
          [] wb,
    );
  }
    where
      w : ℕ
      w = e.rx_write_index

      wb : w < length e.rx_buffers
      wb = omega (arith, v.rx_size, v.write_index)

      wl : w < length e.rx_lengths
      wl = omega (arith, v.rx_lengths_size, v.write_index)

  transmit_byte-KeepsReady : KeepsReady e (transmit_byte e).0
  unfolding transmit_byte mailbox
  transmit_byte-KeepsReady = record { still = ground (arith, ready); same = ground (arith, ready) }

  stop-KeepsReady : KeepsReady e (stop e)
  unfolding stop complete_receive_from_isr mailbox
  stop-KeepsReady = record {
    still = ground (arith, ready);
    same =
        ground
          (arith, ready, v.apart, get_or-set e.rx_lengths e.rx_write_index e.rx_ready_index 0 0 wl);
  }
    where
      wl : e.rx_write_index < length e.rx_lengths
      wl = omega (arith, v.rx_lengths_size, v.write_index)

  abort-KeepsReady : KeepsReady e (abort e)
  unfolding abort mailbox
  abort-KeepsReady = record { still = ready; same = refl }

  overrun-KeepsReady : KeepsReady e (overrun e)
  unfolding overrun mailbox
  overrun-KeepsReady = record { still = ready; same = refl }

-- A valid endpoint that keeps what is ready, and one step more that does if it is taken.
record Kept (e e' : I2cPeripheralEndpoint) : Type 0 where
  valid : IsValid e'
  keeps : KeepsReady e e'

if-Kept :
    (b : Bool) {e x y : I2cPeripheralEndpoint}
    → Kept e y
    → IsValid x
    → KeepsReady y x
    → Kept e (if b then x else y)
if-Kept true h v k = record { valid = v; keeps = KeepsReady-trans h.keeps k }
if-Kept false h v k = h

handle_irq-Kept :
    {e : I2cPeripheralEndpoint} (i : Interrupt)
    → IsValid e
    → e.rx_ready ≡ true
    → Kept e (handle_irq e i).0
unfolding handle_irq
handle_irq-Kept {e} i v ready =
    let here : Kept e e = record { valid = v; keeps = record { still = ready; same = refl } } in
    let r =
      if-Kept i.rx_full here (receive_byte-IsValid v i.data_cmd)
        (receive_byte-KeepsReady v ready i.data_cmd) in
    let t =
      if-Kept i.rd_req r (transmit_byte-IsValid r.valid)
        (transmit_byte-KeepsReady r.valid r.keeps.still) in
    let s = if-Kept i.stop_det t (stop-IsValid t.valid) (stop-KeepsReady t.valid t.keeps.still) in
    let a = if-Kept i.tx_abrt s (abort-IsValid s.valid) (abort-KeepsReady s.valid s.keeps.still) in
    if-Kept i.rx_over a (overrun-IsValid a.valid) (overrun-KeepsReady a.valid a.keeps.still)

handle_irqs-Kept :
    (is : List Interrupt) {e : I2cPeripheralEndpoint}
    → IsValid e
    → e.rx_ready ≡ true
    → Kept e (handle_irqs e is).0
unfolding handle_irqs
handle_irqs-Kept [] v ready = record { valid = v; keeps = record { still = ready; same = refl } }
handle_irqs-Kept (i ∷ is) v ready =
    let h = handle_irq-Kept i v ready in
    let k = handle_irqs-Kept is h.valid h.keeps.still in
    record { valid = k.valid; keeps = KeepsReady-trans h.keeps k.keeps }

-- Once something is ready on a valid endpoint, no sequence of interrupts changes it.
pub mailbox-handle_irqs :
    (e : I2cPeripheralEndpoint) (is : List Interrupt)
    → IsValid e
    → e.rx_ready ≡ true
    → mailbox (handle_irqs e is).0 ≡ mailbox e
mailbox-handle_irqs e is v ready = (handle_irqs-Kept is v ready).keeps.same
