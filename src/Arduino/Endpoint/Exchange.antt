-- ===== src/Arduino/Endpoint/Exchange.antt =====
-- Frames through the endpoint, from the controller and to it.
use picomesh.Base.{ℕ, ◌≤◌, ◌≡◌, refl, ◌∙◌, ap, List, [], ◌∷◌, ◌++◌, Bool, true, Option, some, arith}
use mathlib.Core.Option
use picomesh.Base.{lt→ltb, length, take, drop, take-append, length-append, length-drop, take_all}
use picomesh.Frame.{Frame, IsFrame, DecodeError, decode_frame, is_ok}
use picomesh.Frame.Wire.{wire, length-wire, encode_frame-wire}
use picomesh.Frame.Decode.{sent}
use picomesh.Frame.Buffers.{copy_n-encode_frame, decode_frame-copy_n}
use picomesh.Arduino.TwoWire.{TwoWire, IsLawful}
use picomesh.Arduino.Endpoint.{
  WirePeripheralEndpoint, receive_from_isr, receive_all, request_from_isr, publish, poll,
  take_received,
}
use picomesh.Arduino.Endpoint.Interrupts.{
  IsValid, mailbox, nonempty, receive_from_isr_lem, receive_from_isr-IsValid,
}

-- The buffer to transmit holds these bytes.
abbrev pub outgoing : WirePeripheralEndpoint → List ℕ
outgoing e = take e.tx_length e.tx_bytes

module _ {e : WirePeripheralEndpoint} (v : IsValid e) {f : Frame} (fr : IsFrame f) where
  publish-eq : publish e f ≡ (
    record e {
      tx_bytes = wire f ++ drop (length (wire f)) e.tx_bytes;
      tx_length = length (wire f);
    },
    true,
  )
  unfolding publish
  publish-eq =
      ground (
        arith,
        (encode_frame-wire fr).1,
        length-wire fr,
        copy_n-encode_frame fr e.tx_bytes v.tx_size,
      )

  -- Publishing on a valid endpoint succeeds and keeps it valid; the wire format of the frame is then
  -- to be sent, and what is ready is as before.
  pub publish_lem :
      ((publish e f).1 ≡ true)
      × IsValid (publish e f).0
      × (outgoing (publish e f).0 ≡ wire f)
      × (mailbox (publish e f).0 ≡ mailbox e)
  publish_lem = rw publish-eq (
    refl,
    record {
      rx_size = v.rx_size;
      tx_size = omega (
        arith,
        length-append (wire f) (drop (length (wire f)) e.tx_bytes),
        length-drop (length (wire f)) e.tx_bytes,
        v.tx_size,
        length-wire fr,
      );
      rx_bound = v.rx_bound;
      tx_bound = omega (arith, length-wire fr);
      rx_all = v.rx_all;
      ready_length = v.ready_length;
    },
    take-append (wire f) (drop (length (wire f)) e.tx_bytes) (length (wire f)) refl,
    refl,
  )

module _ (W : TwoWire) where
  -- On a valid endpoint, a request after the publication of a frame whose fields fit their C++
  -- types writes exactly the wire format of the frame to the bus.
  request_from_isr-publish :
      {e : WirePeripheralEndpoint} {f : Frame} (s : W.State)
      → IsValid e
      → IsFrame f
      → request_from_isr W s (publish e f).0 ≡ (W.write s (wire f)).0
  unfolding request_from_isr
  request_from_isr-publish {e} {f} s v fr =
      ap (λ (p : WirePeripheralEndpoint × Bool). request_from_isr W s p.0) (publish-eq v fr)
      ∙ rw (lt→ltb 0 (length (wire f)) (omega (arith, length-wire fr))) (
          ap (λ bs. (W.write s bs).0)
            (take-append (wire f) (drop (length (wire f)) e.tx_bytes) (length (wire f)) refl))

parts :
    {out : WirePeripheralEndpoint × Bool × Frame × Option DecodeError} {e : WirePeripheralEndpoint}
    {f : Frame} {error : Option DecodeError}
    → out ≡ (e, true, f, error)
    → (out.1 ≡ true) × (out.2 ≡ f) × (out.3 ≡ error)
parts h = (
  ap (λ (p : WirePeripheralEndpoint × Bool × Frame × Option DecodeError). p.1) h,
  ap (λ (p : WirePeripheralEndpoint × Bool × Frame × Option DecodeError). p.2) h,
  ap (λ (p : WirePeripheralEndpoint × Bool × Frame × Option DecodeError). p.3) h,
)

module _ (W : TwoWire) (laws : IsLawful W) where
  pub receive_all-IsValid :
      (transfers : List (W.State × ℕ)) {e : WirePeripheralEndpoint}
      → IsValid e
      → IsValid (receive_all W e transfers)
  unfolding receive_all
  receive_all-IsValid [] v = v
  receive_all-IsValid ((s, count) ∷ more) v =
      receive_all-IsValid more (receive_from_isr-IsValid W laws v s count)

  receive_all-append :
      (xs ys : List (W.State × ℕ)) (e : WirePeripheralEndpoint)
      → receive_all W e (xs ++ ys) ≡ receive_all W (receive_all W e xs) ys
  unfolding receive_all
  receive_all-append [] ys e = refl
  receive_all-append ((s, count) ∷ xs) ys e =
      receive_all-append xs ys (receive_from_isr W s e count).1

  -- Whatever came before, the last transfer of a frame is what is ready.
  receive_all-wire :
      {e : WirePeripheralEndpoint} {f : Frame} (earlier : List (W.State × ℕ)) (s : W.State)
      (count : ℕ)
      → IsValid e
      → IsFrame f
      → laws.unread s ≡ wire f
      → length (wire f) ≤ count
      → mailbox (receive_all W e (earlier ++ (s, count) ∷ [])) ≡ some (wire f)
  unfolding receive_all
  receive_all-wire {e} {f} earlier s count v fr arrived enough =
      ap mailbox (receive_all-append earlier ((s, count) ∷ []) e)
      ∙ (receive_from_isr_lem W laws (receive_all-IsValid earlier v) s count).2
      ∙ ap nonempty (
          ap (λ us. take 40 (take count us)) arrived
          ∙ ap (take 40) (take_all count (wire f) enough)
          ∙ take_all 40 (wire f) (omega (arith, length-wire fr)))

  pub take_received-IsValid : {e : WirePeripheralEndpoint} → IsValid e → IsValid (take_received e).0
  unfolding take_received
  take_received-IsValid v = record {
    rx_size = v.rx_size;
    tx_size = v.tx_size;
    rx_bound = omega arith;
    tx_bound = v.tx_bound;
    rx_all = v.rx_all;
    ready_length = refl;
  }

  take_received-decode :
      {e : WirePeripheralEndpoint} {f : Frame}
      → IsValid e
      → IsFrame f
      → mailbox e ≡ some (wire f)
      → (decode_frame (some (take_received e).1) (take_received e).2
          ≡ record { frame = sent f; error = DecodeError.none })
        × (e.rx_ready ≡ true)
  unfolding take_received
  take_received-decode {e} v fr m = (
    decode_frame-copy_n fr e.rx_bytes e.rx_length v.rx_size v.rx_bound (ground (arith, m)),
    ground (arith, m),
  )

  pub poll-mailbox :
      {e : WirePeripheralEndpoint} {f : Frame} (old : Frame) (error : Option DecodeError)
      (between : List (W.State × ℕ))
      → IsValid e
      → IsFrame f
      → e.rx_ready ≡ true
      → mailbox (receive_all W e between) ≡ some (wire f)
      → poll W e old error between ≡ (
        (take_received (receive_all W e between)).0,
        true,
        sent f,
        Option.map (λ _. DecodeError.none) error,
      )
  unfolding poll is_ok
  poll-mailbox {e} old error between v fr ready m =
      let h = (take_received-decode (receive_all-IsValid between v) fr m).0 in rw (h, ready) refl

  -- On a valid endpoint, after any transfers and then the transfer of a frame whose fields fit
  -- their C++ types, whole, `poll` returns true, the frame as it was sent, and no error.
  pub poll-receive_all :
      {e : WirePeripheralEndpoint} {f : Frame} (earlier : List (W.State × ℕ)) (s : W.State)
      (count : ℕ) (old : Frame) (error : DecodeError)
      → IsValid e
      → IsFrame f
      → laws.unread s ≡ wire f
      → length (wire f) ≤ count
      → let e' = receive_all W e (earlier ++ (s, count) ∷ []) in
        ((poll W e' old (some error) []).1 ≡ true)
        × ((poll W e' old (some error) []).2 ≡ sent f)
        × ((poll W e' old (some error) []).3 ≡ some DecodeError.none)
  unfolding receive_all
  poll-receive_all {e} earlier s count old error v fr arrived enough =
      let v' = receive_all-IsValid (earlier ++ (s, count) ∷ []) v in
      let m = receive_all-wire earlier s count v fr arrived enough in
      parts (poll-mailbox old (some error) [] v' fr (take_received-decode v' fr m).1 m)

  -- If transfers are handled between the test of `poll` and its critical section, the last of
  -- them a whole frame, `poll` returns this frame as it was sent, never a mixture with the one
  -- that was ready at the test.
  pub poll-between :
      {e : WirePeripheralEndpoint} {f : Frame} (earlier : List (W.State × ℕ)) (s : W.State)
      (count : ℕ) (old : Frame) (error : DecodeError)
      → IsValid e
      → IsFrame f
      → e.rx_ready ≡ true
      → laws.unread s ≡ wire f
      → length (wire f) ≤ count
      → let out = poll W e old (some error) (earlier ++ (s, count) ∷ []) in
        (out.1 ≡ true) × (out.2 ≡ sent f) × (out.3 ≡ some DecodeError.none)
  poll-between earlier s count old error v fr ready arrived enough = parts (
      poll-mailbox old (some error) (earlier ++ (s, count) ∷ []) v fr ready
        (receive_all-wire earlier s count v fr arrived enough))
