-- ===== src/PicoEndpoint/Reception.antt =====
-- A transfer from the controller: its bytes, and the stop that ends it.
use picomesh.Base.{
  ℕ, suc, ◌+◌, ◌≤◌, ◌<◌, ◌≡◌, refl, sym, ◌∙◌, ap, subst, List, [], ◌∷◌, ◌++◌, true, false, some,
  arith, bit_xor, append-nil, append_assoc,
}
use native.Mathlib.Nat.{mod-eq_of_lt}
use picomesh.Base.{
  ap₂, get_or, set, take, length, get_or-set, get_or-set_self, u8, AllBytes, take-suc-set,
  length-append, lt→ltb,
}
use picomesh.Frame.{Frame, IsFrame, DecodeError, decode_frame, is_ok}
use picomesh.Frame.Wire.{wire, length-wire, wire-AllBytes}
use picomesh.Frame.Decode.{sent}
use picomesh.Frame.Buffers.{decode_frame-copy_n}
use picomesh.PicoEndpoint.{
  I2cPeripheralEndpoint, Interrupt, receive_byte, complete_receive_from_isr, stop, handle_irq,
  handle_irqs, take_ready, poll,
}
use picomesh.PicoEndpoint.Invariant.{IsValid, other, receive_byte-IsValid}
use picomesh.PicoEndpoint.Interrupts.{handle_irq-IsValid, handle_irqs-IsValid}
use picomesh.PicoEndpoint.Mailbox.{mailbox, stored, arriving, mailbox-handle_irqs}

-- The interrupts of one received byte, and of the end of a transfer.
abbrev pub byte_received : ℕ → Interrupt
byte_received b = record {
  rx_full = true;
  rd_req = false;
  stop_det = false;
  tx_abrt = false;
  rx_over = false;
  data_cmd = b;
}

abbrev pub stopped : Interrupt
stopped = record {
  rx_full = false;
  rd_req = false;
  stop_det = true;
  tx_abrt = false;
  rx_over = false;
  data_cmd = 0;
}

abbrev pub transfer : List ℕ → List Interrupt
transfer [] = stopped ∷ []
transfer (b ∷ bs) = byte_received b ∷ transfer bs

-- A transfer in progress: nothing ready yet, and these bytes stored.
pub record Receiving (e : I2cPeripheralEndpoint) (bs : List ℕ) : Type 0 where
  pub valid : IsValid e
  pub waiting : e.rx_ready ≡ false
  pub count : stored e ≡ length bs
  pub bytes : arriving e ≡ bs

-- The endpoint with one byte more stored.
abbrev store : I2cPeripheralEndpoint → ℕ → I2cPeripheralEndpoint
store e b = record e {
  rx_buffers =
      set e.rx_buffers e.rx_write_index
        (set (get_or e.rx_buffers e.rx_write_index []) (stored e) b);
  rx_lengths = set e.rx_lengths e.rx_write_index (stored e + 1);
}

pub receive_byte-store :
    (e : I2cPeripheralEndpoint) (b : ℕ) → stored e < 40 → b < 256 → receive_byte e b ≡ store e b
unfolding receive_byte
receive_byte-store e b room byte =
    let k : u8 (stored e + 1) ≡ stored e + 1 = mod-eq_of_lt (omega arith) in
    let d : u8 b ≡ b = mod-eq_of_lt byte in rw (lt→ltb (stored e) 40 room, k, d) refl

module _ {e : I2cPeripheralEndpoint} {bs : List ℕ} (r : Receiving e bs) where
  pub Receiving-byte :
      (b : ℕ)
      → b < 256
      → length bs < 40
      → Receiving (handle_irq e (byte_received b)).0 (bs ++ b ∷ [])
  unfolding handle_irq arriving
  Receiving-byte b byte room =
      subst (λ e'. Receiving e' (bs ++ b ∷ [])) (sym (receive_byte-store e b here byte))
        (record {
          valid = subst IsValid (receive_byte-store e b here byte) (receive_byte-IsValid r.valid b);
          waiting = r.waiting;
          count = one_more ∙ omega (arith, r.count, length-append bs (b ∷ []));
          bytes =
              ap₂ take one_more (get_or-set_self e.rx_buffers w (set buffer k b) [] wb)
              ∙ ap (λ n. take n (set buffer k b)) up
              ∙ take-suc-set buffer k b (omega (arith, r.valid.rx_storage w r.valid.write_index))
              ∙ ap (λ xs. xs ++ b ∷ []) r.bytes;
        })
    where
      w : ℕ
      w = e.rx_write_index

      k : ℕ
      k = stored e

      up : k + 1 ≡ suc k
      up = omega arith

      here : k < 40
      here = omega (arith, r.count)

      buffer : List ℕ
      buffer = get_or e.rx_buffers w []

      wb : w < length e.rx_buffers
      wb = omega (arith, r.valid.rx_size, r.valid.write_index)

      one_more : get_or (set e.rx_lengths w (k + 1)) w 0 ≡ k + 1
      one_more =
          get_or-set_self e.rx_lengths w (k + 1) 0
            (omega (arith, r.valid.rx_lengths_size, r.valid.write_index))

  pub Receiving-stop :
      1 ≤ length bs
      → (mailbox (handle_irq e stopped).0 ≡ some bs) × ((handle_irq e stopped).0.rx_ready ≡ true)
  unfolding handle_irq stop complete_receive_from_isr mailbox arriving
  Receiving-stop some_byte = ground (
    arith,
    r.waiting,
    r.count,
    r.bytes,
    r.valid.write_index,
    other e.rx_write_index r.valid.write_index,
    get_or-set e.rx_lengths (u8 (bit_xor e.rx_write_index 1)) e.rx_write_index 0 0 nl,
  )
    where
      nl : u8 (bit_xor e.rx_write_index 1) < length e.rx_lengths
      nl = omega (arith, r.valid.rx_lengths_size, other e.rx_write_index r.valid.write_index)

mailbox-transfer :
    (bs : List ℕ) (later : List Interrupt) {e : I2cPeripheralEndpoint} {before : List ℕ}
    → Receiving e before
    → AllBytes bs
    → 1 ≤ length (before ++ bs)
    → length (before ++ bs) ≤ 40
    → mailbox (handle_irqs e (transfer bs ++ later)).0 ≡ some (before ++ bs)
unfolding handle_irqs
mailbox-transfer [] later {e} {before} r bytes some_byte fits =
    mailbox-handle_irqs (handle_irq e stopped).0 later (handle_irq-IsValid stopped r.valid) done.1
    ∙ done.0
    ∙ ap some (sym (append-nil before))
  where
    done :
        (mailbox (handle_irq e stopped).0 ≡ some before)
        × ((handle_irq e stopped).0.rx_ready ≡ true)
    done = Receiving-stop r (omega (arith, length-append before []))
mailbox-transfer (b ∷ bs) later {e} {before} r bytes some_byte fits =
    mailbox-transfer bs later
      (Receiving-byte r b bytes.0 (omega (arith, length-append before (b ∷ bs)))) bytes.1
      (subst (λ xs. 1 ≤ length xs) same some_byte) (subst (λ xs. length xs ≤ 40) same fits)
    ∙ ap some (sym same)
  where
    same : before ++ b ∷ bs ≡ (before ++ b ∷ []) ++ bs
    same = sym (append_assoc before (b ∷ []) bs)

-- What `poll` copies out of the mailbox decodes as the frame that is ready there.
take_ready-decode :
    {f : Frame} (e : I2cPeripheralEndpoint)
    → IsFrame f
    → IsValid e
    → mailbox e ≡ some (wire f)
    → (decode_frame (some (take_ready e).1) (take_ready e).2
        ≡ record { frame = sent f; error = DecodeError.none })
      × (e.rx_ready ≡ true)
unfolding mailbox take_ready
take_ready-decode e fr v m = (
  decode_frame-copy_n fr buffer n (v.rx_storage e.rx_ready_index v.ready_index)
      (v.rx_bounds e.rx_ready_index v.ready_index) (ground (arith, m)),
  ground (arith, m),
)
  where
    n : ℕ
    n = get_or e.rx_lengths e.rx_ready_index 0

    buffer : List ℕ
    buffer = get_or e.rx_buffers e.rx_ready_index []

poll-mailbox :
    {f : Frame} (e : I2cPeripheralEndpoint) (old : Frame) (error : DecodeError)
    → IsFrame f
    → IsValid e
    → mailbox e ≡ some (wire f)
    → ((poll e old (some error)).1 ≡ true)
      × ((poll e old (some error)).2 ≡ sent f)
      × ((poll e old (some error)).3 ≡ some DecodeError.none)
unfolding poll is_ok
poll-mailbox {f} e old error fr v m =
    let h = take_ready-decode e fr v m in
    (ground (arith, h.0, h.1), ground (arith, h.0, h.1), ground (arith, h.0, h.1))

-- On a valid endpoint with nothing ready and nothing stored of a transfer, after the interrupts
-- of a transfer of a frame whose fields fit their C++ types, and any interrupts later, the next
-- `poll` returns true, the frame as it was sent, and no error.
pub poll-transfer :
    {f : Frame} (e : I2cPeripheralEndpoint) (later : List Interrupt) (old : Frame)
    (error : DecodeError)
    → IsFrame f
    → IsValid e
    → e.rx_ready ≡ false
    → stored e ≡ 0
    → let e' = (handle_irqs e (transfer (wire f) ++ later)).0 in
      ((poll e' old (some error)).1 ≡ true)
      × ((poll e' old (some error)).2 ≡ sent f)
      × ((poll e' old (some error)).3 ≡ some DecodeError.none)
unfolding arriving
poll-transfer {f} e later old error fr v waiting start =
    poll-mailbox (handle_irqs e (transfer (wire f) ++ later)).0 old error fr
      (handle_irqs-IsValid (transfer (wire f) ++ later) v)
      (mailbox-transfer (wire f) later
        (record {
          valid = v;
          waiting = waiting;
          count = start;
          bytes = ap (λ n. take n (get_or e.rx_buffers e.rx_write_index [])) start;
        })
        (wire-AllBytes fr) (omega (arith, length-wire fr)) (omega (arith, length-wire fr)))
