-- ===== src/PicoEndpoint/Reachable.antt =====
-- The invariant under whatever the application and the interrupts do.
use picomesh.Base.{ℕ, ◌-◌, ◌≤◌, ◌<◌, ◌≡◌, refl, subst, inl, List, [], ◌∷◌, Option, none, arith}
use picomesh.Base.{length, replicate, get_or-replicate, if◌then◌else◌}
use picomesh.Frame.{Frame, IsFrame, encode_frame, DecodeError}
use picomesh.Frame.{default_frame}
use picomesh.Frame.Wire.{length-wire, encode_frame-wire}
use picomesh.Frame.Buffers.{encode_frame-full}
use picomesh.PicoEndpoint.{
  I2cPeripheralEndpoint, Interrupt, handle_irq, handle_irqs, fill_inactive, switch_active, publish,
  take_ready, poll, new_endpoint,
}
use picomesh.PicoEndpoint.Invariant.{IsValid, other}
use picomesh.PicoEndpoint.Buffers.{fill_inactive-IsValid, switch_active-IsValid, take_ready-IsValid}
use picomesh.PicoEndpoint.Interrupts.{
  if-IsValid, handle_irq-IsValid, handle_irqs-IsValid, handle_irqs-KeepsTx,
}

pub new_endpoint-IsValid : IsValid new_endpoint
new_endpoint-IsValid = record {
  rx_size = refl;
  rx_lengths_size = refl;
  tx_size = refl;
  tx_lengths_size = refl;
  rx_storage = λ i h. ground (arith, get_or-replicate 2 i (replicate {A = ℕ} 40 0));
  rx_bounds = λ i h. ground (arith, get_or-replicate {A = ℕ} 2 i 0);
  tx_storage = λ i h. ground (arith, get_or-replicate 2 i (replicate {A = ℕ} 40 0));
  tx_bounds = λ i h. ground (arith, get_or-replicate {A = ℕ} 2 i 0);
  write_index = omega arith;
  ready_index = omega arith;
  active_index = omega arith;
  position = omega arith;
  apart = inl refl;
  not_empty = inl refl;
}

-- A frame always encodes to 8 to 40 bytes, so `publish` always comes to its second part.
pub publish-switch_active :
    (e : I2cPeripheralEndpoint) (f : Frame) (between : List Interrupt)
    → IsFrame f
    → e.tx_active_index < 2
    → publish e f between
      ≡ switch_active
          (handle_irqs (fill_inactive e (1 - e.tx_active_index) (encode_frame f)) between).0
          (1 - e.tx_active_index)
          (encode_frame f)
unfolding publish
publish-switch_active e f between fr a =
    rw (other e.tx_active_index a) (ground (arith, (encode_frame-wire fr).1, length-wire fr))

pub publish-IsValid :
    {e : I2cPeripheralEndpoint} (f : Frame) (between : List Interrupt)
    → IsFrame f
    → IsValid e
    → IsValid (publish e f between).0
unfolding fill_inactive
publish-IsValid {e} f between fr v = rw (publish-switch_active e f between fr v.active_index) (
    subst (λ a. IsValid (switch_active after (1 - a) (encode_frame f)).0)
      (handle_irqs-KeepsTx filled between).same_active
      (switch_active-IsValid
        (handle_irqs-IsValid between (fill_inactive-IsValid v (encode_frame f) whole fits))
        (encode_frame f) fits))
  where
    filled : I2cPeripheralEndpoint
    filled = fill_inactive e (1 - e.tx_active_index) (encode_frame f)

    after : I2cPeripheralEndpoint
    after = (handle_irqs filled between).0

    fits : (encode_frame f).active ≤ 40
    fits = omega (arith, (encode_frame-wire fr).1, length-wire fr)

    whole : length (encode_frame f).bytes ≡ 40
    whole = encode_frame-full fr

-- Whatever the frame decodes to, `poll` takes it out.
poll-take_ready :
    (e : I2cPeripheralEndpoint) (f : Frame) (error : Option DecodeError)
    → (poll e f error).0 ≡ (if e.rx_ready then (take_ready e).0 else e)
unfolding poll
poll-take_ready e f error = ground arith

pub poll-IsValid :
    {e : I2cPeripheralEndpoint} (f : Frame) (error : Option DecodeError)
    → IsValid e
    → IsValid (poll e f error).0
poll-IsValid {e} f error v =
    rw (poll-take_ready e f error) (if-IsValid e.rx_ready (take_ready-IsValid v) v)

-- What the application or an interrupt does.
pub data Event : Type 0 where
  irq : Interrupt → Event
  publishes : (f : Frame) → IsFrame f → List Interrupt → Event
  polls : Event

pub run : I2cPeripheralEndpoint → List Event → I2cPeripheralEndpoint
run e [] = e
run e (irq i ∷ es) = run (handle_irq e i).0 es
run e (publishes f fr between ∷ es) = run (publish e f between).0 es
run e (polls ∷ es) = run (poll e default_frame none).0 es

run-IsValid : (es : List Event) {e : I2cPeripheralEndpoint} → IsValid e → IsValid (run e es)
unfolding run
run-IsValid [] v = v
run-IsValid (irq i ∷ es) v = run-IsValid es (handle_irq-IsValid i v)
run-IsValid (publishes f fr between ∷ es) v = run-IsValid es (publish-IsValid f between fr v)
run-IsValid (polls ∷ es) v = run-IsValid es (poll-IsValid default_frame none v)

-- After any interrupts, publications of frames whose fields fit their C++ types, and polls, in
-- any order, on a new endpoint: the arrays have their sizes, all lengths fit the buffers, the
-- indexes are 0 or 1, the bytes sent are at most those published, and what is ready is not empty
-- and not in the buffer being filled.
pub run-new_endpoint-IsValid : (es : List Event) → IsValid (run new_endpoint es)
run-new_endpoint-IsValid es = run-IsValid es new_endpoint-IsValid
