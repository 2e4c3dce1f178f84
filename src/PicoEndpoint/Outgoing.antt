-- ===== src/PicoEndpoint/Outgoing.antt =====
-- What is sent: the bytes of the active frame that the controller has not read yet.
use picomesh.Base.{
  ℕ, zero, suc, ◌+◌, ◌-◌, ◌≤◌, ◌<◌, ◌≡◌, ◌≢◌, refl, sym, ◌∙◌, ap, inl, inr, List, [], ◌∷◌, ◌++◌,
  Bool, true, false, Option, some, arith, Bool-cases,
}
use native.Mathlib.Nat.{mod-eq_of_lt}
use picomesh.Base.{
  ap₂, get_or, set, take, drop, length, get_or-set_self, get_or-set_ne, get_or-take, drop-cons,
  drop_all, take-append, length-take, copy_n, copy_n_lem, replicate, u8, ltb, ltb→lt, ==→eq,
  not-ltb→le, ◌==◌, if◌then◌else◌,
}
use picomesh.Frame.{Frame, IsFrame, EncodedFrame, encode_frame}
use picomesh.Frame.Wire.{wire, sent_length, length-wire, encode_frame-wire}
use picomesh.PicoEndpoint.{
  I2cPeripheralEndpoint, Interrupt, transmit_byte, handle_irq, handle_irqs, publish, fill_inactive,
  switch_active,
}
use picomesh.PicoEndpoint.Invariant.{IsValid, transmit_byte-IsValid}
use picomesh.PicoEndpoint.Interrupts.{handle_irqs-KeepsTx, KeepsTx}
use picomesh.PicoEndpoint.Reachable.{publish-switch_active, publish-IsValid}
use picomesh.Frame.Buffers.{encode_frame-full}

unfoldable pub outgoing : I2cPeripheralEndpoint → List ℕ
outgoing e =
    drop e.tx_index
      (take (get_or e.tx_lengths e.tx_active_index 0) (get_or e.tx_buffers e.tx_active_index []))

-- The controller asks for so many bytes.
abbrev pub requested : Interrupt
requested = record {
  rx_full = false;
  rd_req = true;
  stop_det = false;
  tx_abrt = false;
  rx_over = false;
  data_cmd = 0;
}

-- What it gets of these bytes: zeros once they are used up.
abbrev pub reading : ℕ → List ℕ → List (Option ℕ)
reading zero xs = []
reading (suc k) xs = some (get_or xs 0 0) ∷ reading k (drop 1 xs)

transmit_byte-outgoing :
    {e : I2cPeripheralEndpoint}
    → IsValid e
    → ((transmit_byte e).1 ≡ get_or (outgoing e) 0 0)
      × (outgoing (transmit_byte e).0 ≡ drop 1 (outgoing e))
unfolding transmit_byte outgoing
transmit_byte-outgoing {e} v = elim (Bool-cases (ltb t n)) [
  | inl more ↦
      let next : u8 (t + 1) ≡ suc t = omega (
        arith,
        ltb→lt t n more,
        size,
        length-take n buffer,
        v.tx_bounds e.tx_active_index v.active_index,
      ) in
      let cut : drop t whole ≡ get_or whole t 0 ∷ drop (suc t) whole =
        drop-cons t whole 0 (omega (arith, ltb→lt t n more, size)) in
      rw (more, next, cut) (sym (get_or-take n buffer t 0 (ltb→lt t n more)), refl)
  | inr done ↦
      let used : drop t whole ≡ [] = drop_all t whole (omega (arith, size, not-ltb→le t n done)) in
      rw (done, used) (refl, refl)
]
  where
    t : ℕ
    t = e.tx_index

    n : ℕ
    n = get_or e.tx_lengths e.tx_active_index 0

    buffer : List ℕ
    buffer = get_or e.tx_buffers e.tx_active_index []

    whole : List ℕ
    whole = take n buffer

    size : length whole ≡ n
    size = omega (
      arith,
      length-take n buffer,
      v.tx_bounds e.tx_active_index v.active_index,
      v.tx_storage e.tx_active_index v.active_index,
    )

handle_irqs-reading :
    (k : ℕ) {e : I2cPeripheralEndpoint}
    → IsValid e
    → (handle_irqs e (replicate k requested)).1 ≡ reading k (outgoing e)
unfolding handle_irqs handle_irq
handle_irqs-reading zero v = refl
handle_irqs-reading (suc k) v =
    let h = transmit_byte-outgoing v in
    ap₂ (λ b xs. some b ∷ xs) h.0
      (handle_irqs-reading k (transmit_byte-IsValid v) ∙ ap (reading k) h.1)

switch_active-outgoing :
    (e : I2cPeripheralEndpoint) (i : ℕ) (encoded : EncodedFrame)
    → i < length e.tx_lengths
    → encoded.active ≤ 40
    → (switch_active e i encoded).1 ≡ true
    → outgoing (switch_active e i encoded).0 ≡ take encoded.active (get_or e.tx_buffers i [])
unfolding switch_active outgoing
switch_active-outgoing e i encoded inside fits ok = elim (Bool-cases (e.tx_index == 0)) [
  | inl start ↦
      let at_start : e.tx_index ≡ 0 = ==→eq e.tx_index 0 start in
      let count : get_or (set e.tx_lengths i (u8 encoded.active)) i 0 ≡ encoded.active =
        get_or-set_self e.tx_lengths i (u8 encoded.active) 0 inside ∙ mod-eq_of_lt (omega arith) in
      rw (start, count) (ap (λ t. drop t (take encoded.active (get_or e.tx_buffers i []))) at_start)
  | inr reading ↦ absurd (ground (arith, reading, ok))
]

-- The frame is active after the switch, from its first byte on.
pub publish-outgoing :
    {f : Frame} (e : I2cPeripheralEndpoint) (between : List Interrupt)
    → IsFrame f
    → IsValid e
    → (publish e f between).1 ≡ true
    → outgoing (publish e f between).0 ≡ wire f
unfolding fill_inactive
publish-outgoing {f} e between fr v ok =
    ap (λ (p : I2cPeripheralEndpoint × Bool). outgoing p.0) whole
    ∙ switch_active-outgoing after i encoded inside fits
        (sym (ap (λ (p : I2cPeripheralEndpoint × Bool). p.1) whole) ∙ ok)
    ∙ ap (take encoded.active) (
        ap (λ bs. get_or bs i []) kept.same_buffers
        ∙ get_or-set_self e.tx_buffers i written [] room
        ∙ copied)
    ∙ take-append (take encoded.active encoded.bytes) (drop encoded.active target) encoded.active
        (omega (arith, length-take encoded.active encoded.bytes, full, fits))
    ∙ ap₂ take (encode_frame-wire fr).1 (encode_frame-wire fr).0
    ∙ take-append (wire f) (replicate (32 - sent_length f) 0) (length (wire f)) refl
  where
    i : ℕ
    i = 1 - e.tx_active_index

    encoded : EncodedFrame
    encoded = encode_frame f

    filled : I2cPeripheralEndpoint
    filled = fill_inactive e i encoded

    after : I2cPeripheralEndpoint
    after = (handle_irqs filled between).0

    whole : publish e f between ≡ switch_active after i encoded
    whole = publish-switch_active e f between fr v.active_index

    kept : KeepsTx filled after
    kept = handle_irqs-KeepsTx filled between

    target : List ℕ
    target = get_or e.tx_buffers i []

    written : List ℕ
    written = copy_n encoded.active encoded.bytes 0 target 0

    fits : encoded.active ≤ 40
    fits = omega (arith, (encode_frame-wire fr).1, length-wire fr)

    full : length encoded.bytes ≡ 40
    full = encode_frame-full fr

    inside : i < length after.tx_lengths
    inside = omega (arith, ap length kept.same_lengths, v.tx_lengths_size)

    room : i < length e.tx_buffers
    room = omega (arith, v.tx_size)

    copied : written ≡ take encoded.active encoded.bytes ++ drop encoded.active target
    copied =
        copy_n_lem encoded.active encoded.bytes 0 [] target 0 (omega (arith, full, fits))
          (omega (arith, fits, v.tx_storage i (omega arith))) refl

-- If publishing a frame on a valid endpoint succeeds, with any interrupts before the switch, then
-- any number of requests by the controller read the wire format of the frame from its first byte
-- on, and zeros behind it.
pub publish-reading :
    {f : Frame} (e : I2cPeripheralEndpoint) (between : List Interrupt) (k : ℕ)
    → IsFrame f
    → IsValid e
    → (publish e f between).1 ≡ true
    → (handle_irqs (publish e f between).0 (replicate k requested)).1 ≡ reading k (wire f)
publish-reading {f} e between k fr v ok =
    handle_irqs-reading k (publish-IsValid f between fr v)
    ∙ ap (reading k) (publish-outgoing e between fr v ok)

-- On a valid endpoint, with no interrupt meanwhile, publishing succeeds exactly if the controller
-- has read none of the active frame; then the new frame is to be sent, and otherwise what was
-- still to be sent remains.
pub outgoing-publish :
    {f : Frame} (e : I2cPeripheralEndpoint)
    → IsFrame f
    → IsValid e
    → ((publish e f []).1 ≡ (e.tx_index == 0))
      × (outgoing (publish e f []).0 ≡ (if e.tx_index == 0 then wire f else outgoing e))
unfolding handle_irqs switch_active fill_inactive outgoing
outgoing-publish {f} e fr v = elim (Bool-cases (e.tx_index == 0)) [
  | inl start ↦
      let ok : (publish e f []).1 ≡ true =
        ap (λ (p : I2cPeripheralEndpoint × Bool). p.1) whole ∙ rw start refl in
      rw start (ok, publish-outgoing e [] fr v ok)
  | inr busy ↦
      let refused : switch_active filled i encoded ≡ (filled, false) = rw busy refl in
      rw busy (
        ap (λ (p : I2cPeripheralEndpoint × Bool). p.1) (whole ∙ refused),
        ap (λ (p : I2cPeripheralEndpoint × Bool). outgoing p.0) (whole ∙ refused)
            ∙ ap (λ bs. drop e.tx_index (take (get_or e.tx_lengths e.tx_active_index 0) bs))
                (get_or-set_ne e.tx_buffers i e.tx_active_index written [] apart),
      )
]
  where
    i : ℕ
    i = 1 - e.tx_active_index

    encoded : EncodedFrame
    encoded = encode_frame f

    written : List ℕ
    written = copy_n encoded.active encoded.bytes 0 (get_or e.tx_buffers i []) 0

    filled : I2cPeripheralEndpoint
    filled = fill_inactive e i encoded

    apart : i ≢ e.tx_active_index
    apart h = absurd (omega (arith, v.active_index))

    whole : publish e f [] ≡ switch_active filled i encoded
    whole = publish-switch_active e f [] fr v.active_index
