-- ===== src/PicoEndpoint/Overflow.antt =====
-- A transfer longer than a buffer.
use picomesh.Base.{
  ℕ, ◌+◌, ◌^◌, ◌<◌, ◌≡◌, sym, ◌∙◌, ap, subst, List, [], ◌∷◌, ◌++◌, false, some, arith, append_assoc,
  append-nil, refl,
}
use picomesh.Base.{length, u32, le→not-ltb, AllBytes, length-append, take, get_or}
use picomesh.PicoEndpoint.{
  I2cPeripheralEndpoint, receive_byte, complete_receive_from_isr, stop, handle_irq, handle_irqs,
}
use picomesh.PicoEndpoint.Invariant.{IsValid, receive_byte-IsValid}
use picomesh.PicoEndpoint.Mailbox.{mailbox, stored, arriving}
use picomesh.PicoEndpoint.Reception.{
  stopped, transfer, Receiving, Receiving-byte, Receiving-stop, receive_byte-store,
}

-- The endpoint with one more loss counted.
abbrev lose : I2cPeripheralEndpoint → I2cPeripheralEndpoint
lose e = record e { dropped_frames = u32 (e.dropped_frames + 1) }

receive_byte-lose : (e : I2cPeripheralEndpoint) (b : ℕ) → stored e ≡ 40 → receive_byte e b ≡ lose e
unfolding receive_byte
receive_byte-lose e b full = rw (le→not-ltb (stored e) 40 (omega (arith, full))) refl

module _ {e : I2cPeripheralEndpoint} {bs : List ℕ} (r : Receiving e bs) where
  Receiving-lose : (b : ℕ) → length bs ≡ 40 → Receiving (lose e) bs
  unfolding arriving
  Receiving-lose b full = record {
    valid = subst IsValid (receive_byte-lose e b (r.count ∙ full)) (receive_byte-IsValid r.valid b);
    waiting = r.waiting;
    count = r.count;
    bytes = r.bytes;
  }

  dropped-stop : (handle_irq e stopped).0.dropped_frames ≡ e.dropped_frames
  unfolding handle_irq stop complete_receive_from_isr
  dropped-stop = ground (arith, r.waiting)

-- What the transfer makes ready, and how many losses it adds.
Overlong : I2cPeripheralEndpoint → List ℕ → List ℕ → ℕ → Type 0
Overlong e kept bytes losses =
    (mailbox (handle_irqs e (transfer bytes)).0 ≡ some kept)
    × ((handle_irqs e (transfer bytes)).0.dropped_frames ≡ u32 (e.dropped_frames + losses))

excess :
    (extra : List ℕ) {e : I2cPeripheralEndpoint} {bs : List ℕ}
    → Receiving e bs
    → e.dropped_frames < 2 ^ 32
    → length bs ≡ 40
    → Overlong e bs extra (length extra)
unfolding handle_irqs handle_irq Overlong
excess [] {e} r word full =
    ((Receiving-stop r (omega (arith, full))).0, omega (arith, dropped-stop r))
excess (b ∷ extra) {e} {bs} r word full =
    subst
      (λ e'.
        (mailbox (handle_irqs e' (transfer extra)).0 ≡ some bs)
        × ((handle_irqs e' (transfer extra)).0.dropped_frames
            ≡ u32 (e.dropped_frames + length (b ∷ extra))))
      (sym (receive_byte-lose e b (r.count ∙ full)))
      (let h = excess extra (Receiving-lose r b full) (omega arith) full in
        (h.0, h.1 ∙ omega arith))

fill_up :
    (bs extra : List ℕ) {e : I2cPeripheralEndpoint} {before : List ℕ}
    → Receiving e before
    → AllBytes bs
    → e.dropped_frames < 2 ^ 32
    → length (before ++ bs) ≡ 40
    → Overlong e (before ++ bs) (bs ++ extra) (length extra)
unfolding handle_irqs handle_irq Overlong
fill_up [] extra {e} {before} r bytes word full =
    let h = excess extra r word (ap length (sym (append-nil before)) ∙ full) in
    (h.0 ∙ ap some (sym (append-nil before)), h.1)
fill_up (b ∷ bs) extra {e} {before} r bytes word full =
    let kept : (receive_byte e b).dropped_frames ≡ e.dropped_frames =
      ap (λ (x : I2cPeripheralEndpoint). x.dropped_frames) (receive_byte-store e b room bytes.0) in
    let h =
      fill_up bs extra (Receiving-byte r b bytes.0 short) bytes.1 (omega (arith, kept))
        (ap length (sym same) ∙ full) in
    (h.0 ∙ ap some (sym same), h.1 ∙ ap (λ n. u32 (n + length extra)) kept)
  where
    same : before ++ b ∷ bs ≡ (before ++ b ∷ []) ++ bs
    same = sym (append_assoc before (b ∷ []) bs)

    short : length before < 40
    short = omega (arith, length-append before (b ∷ bs), full)

    room : stored e < 40
    room = omega (arith, r.count, short)

-- On a valid endpoint with nothing ready, nothing stored and a 32-bit count of losses, a transfer
-- of 40 bytes and more behind them makes the first 40 ready as if they were the whole transfer,
-- and adds one to the count of dropped frames, modulo 2^32, for each byte behind them.
pub mailbox-overlong :
    (e : I2cPeripheralEndpoint) (bs extra : List ℕ)
    → IsValid e
    → e.rx_ready ≡ false
    → stored e ≡ 0
    → e.dropped_frames < 2 ^ 32
    → AllBytes bs
    → length bs ≡ 40
    → (mailbox (handle_irqs e (transfer (bs ++ extra))).0 ≡ some bs)
      × ((handle_irqs e (transfer (bs ++ extra))).0.dropped_frames
          ≡ u32 (e.dropped_frames + length extra))
unfolding arriving Overlong
mailbox-overlong e bs extra v waiting start word bytes full =
    fill_up bs extra
      (record {
        valid = v;
        waiting = waiting;
        count = start;
        bytes = ap (λ n. take n (get_or e.rx_buffers e.rx_write_index [])) start;
      })
      bytes word full
