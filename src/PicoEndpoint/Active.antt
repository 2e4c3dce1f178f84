-- ===== src/PicoEndpoint/Active.antt =====
-- The buffer that the controller reads from: always a whole frame that was published.
use picomesh.Base.{
  ℕ, ◌-◌, ◌≤◌, ◌≡◌, refl, sym, ◌∙◌, ap, inl, inr, List, [], Bool, true, false, arith, Bool-cases,
}
use picomesh.Base.{get_or, take, drop, copy_n, get_or-set_ne, if◌then◌else◌}
use picomesh.Frame.{Frame, IsFrame, EncodedFrame, encode_frame}
use picomesh.Frame.Wire.{wire, length-wire, encode_frame-wire}
use picomesh.Frame.Buffers.{encode_frame-full}
use picomesh.PicoEndpoint.Buffers.{fill_inactive-IsValid}
use picomesh.PicoEndpoint.{
  I2cPeripheralEndpoint, Interrupt, handle_irqs, publish, fill_inactive, switch_active,
}
use picomesh.PicoEndpoint.Invariant.{IsValid}
use picomesh.PicoEndpoint.Interrupts.{KeepsTx, handle_irqs-IsValid, handle_irqs-KeepsTx}
use picomesh.PicoEndpoint.Reachable.{publish-switch_active}
use picomesh.PicoEndpoint.Outgoing.{outgoing, publish-outgoing}

abbrev pub active_bytes : I2cPeripheralEndpoint → List ℕ
active_bytes e =
    take (get_or e.tx_lengths e.tx_active_index 0) (get_or e.tx_buffers e.tx_active_index [])

pub outgoing-active_bytes :
    (e : I2cPeripheralEndpoint) → outgoing e ≡ drop e.tx_index (active_bytes e)
unfolding outgoing
outgoing-active_bytes e = refl

pub KeepsTx-active_bytes :
    {e e' : I2cPeripheralEndpoint} → KeepsTx e e' → active_bytes e' ≡ active_bytes e
KeepsTx-active_bytes k = λ i.
    take (get_or (k.same_lengths i) (k.same_active i) 0)
      (get_or (k.same_buffers i) (k.same_active i) [])

switch_active-at_start :
    (e : I2cPeripheralEndpoint) (i : ℕ) (encoded : EncodedFrame)
    → (switch_active e i encoded).1 ≡ true
    → (switch_active e i encoded).0.tx_index ≡ 0
unfolding switch_active
switch_active-at_start e i encoded ok = ground (arith, ok)

switch_active-refused :
    (e : I2cPeripheralEndpoint) (i : ℕ) (encoded : EncodedFrame)
    → (switch_active e i encoded).1 ≡ false
    → (switch_active e i encoded).0 ≡ e
unfolding switch_active
switch_active-refused e i encoded bad = ground (arith, bad)

module _ {f : Frame} (e : I2cPeripheralEndpoint) (between : List Interrupt) (fr : IsFrame f)
    (v : IsValid e) where
  abbrev filled : I2cPeripheralEndpoint
  filled = fill_inactive e (1 - e.tx_active_index) (encode_frame f)

  abbrev after : I2cPeripheralEndpoint
  after = (handle_irqs filled between).0

  abbrev whole : publish e f between ≡ switch_active after (1 - e.tx_active_index) (encode_frame f)
  whole = publish-switch_active e f between fr v.active_index

  published : (publish e f between).1 ≡ true → active_bytes (publish e f between).0 ≡ wire f
  published ok =
      sym (ap (λ t. drop t (active_bytes (publish e f between).0)) at_start)
      ∙ sym (outgoing-active_bytes (publish e f between).0)
      ∙ publish-outgoing e between fr v ok
    where
      at_start : (publish e f between).0.tx_index ≡ 0
      at_start =
          ap (λ (p : I2cPeripheralEndpoint × Bool). p.0.tx_index) whole
          ∙ switch_active-at_start after (1 - e.tx_active_index) (encode_frame f)
              (sym (ap (λ (p : I2cPeripheralEndpoint × Bool). p.1) whole) ∙ ok)

  refused : (publish e f between).1 ≡ false → active_bytes (publish e f between).0 ≡ active_bytes e
  unfolding fill_inactive
  refused bad =
      ap (λ (p : I2cPeripheralEndpoint × Bool). active_bytes p.0) whole
      ∙ ap active_bytes (
          switch_active-refused after (1 - e.tx_active_index) (encode_frame f)
            (sym (ap (λ (p : I2cPeripheralEndpoint × Bool). p.1) whole) ∙ bad))
      ∙ KeepsTx-active_bytes (handle_irqs-KeepsTx filled between)
      ∙ ap (take (get_or e.tx_lengths e.tx_active_index 0)) (
          get_or-set_ne e.tx_buffers (1 - e.tx_active_index) e.tx_active_index
            (copy_n (encode_frame f).active (encode_frame f).bytes 0
              (get_or e.tx_buffers (1 - e.tx_active_index) []) 0)
            [] (λ h. absurd (omega (arith, v.active_index))))

  -- Publishing makes the frame active, whole, or leaves the active one as it is.
  pub publish-active_bytes :
      active_bytes (publish e f between).0
      ≡ (if (publish e f between).1 then wire f else active_bytes e)
  publish-active_bytes = elim (Bool-cases (publish e f between).1) [
    | inl ok ↦ rw ok (published ok)
    | inr bad ↦ rw bad (refused bad)
  ]

  -- With an empty active buffer the controller can have read nothing, so publishing succeeds.
  pub publish-empty :
      get_or e.tx_lengths e.tx_active_index 0 ≡ 0 → active_bytes (publish e f between).0 ≡ wire f
  unfolding fill_inactive switch_active
  publish-empty empty =
      let fits : (encode_frame f).active ≤ 40 =
        omega (arith, (encode_frame-wire fr).1, length-wire fr) in
      let sound =
        handle_irqs-IsValid between
          (fill_inactive-IsValid v (encode_frame f) (encode_frame-full fr) fits) in
      let kept = handle_irqs-KeepsTx filled between in
      let none_sent : after.tx_index ≡ 0 = ground (
        arith,
        sound.position,
        empty,
        ap (λ ls. get_or ls after.tx_active_index 0) kept.same_lengths,
        ap (λ j. get_or e.tx_lengths j 0) kept.same_active,
      ) in
      published (ap (λ (p : I2cPeripheralEndpoint × Bool). p.1) whole ∙ ground (arith, none_sent))
