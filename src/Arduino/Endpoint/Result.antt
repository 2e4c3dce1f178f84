-- ===== src/Arduino/Endpoint/Result.antt =====
-- What `poll` returns and keeps, whatever was received.
use picomesh.Base.{ℕ, ◌≡◌, refl, List, [], ◌∷◌, Bool, Option, some, arith, not, if-elim}
use picomesh.Base.{replicate, length-copy_n, AllBytes-copy_n, AllBytes-replicate, copy_n}
use picomesh.Frame.{Frame, DecodeError, is_ok, decode_frame}
use picomesh.Frame.Accepted.{IsCanonical}
use picomesh.Frame.Result.{decode_frame-IsCanonical}
use picomesh.Arduino.TwoWire.{TwoWire, IsLawful}
use picomesh.Arduino.Endpoint.{
  WirePeripheralEndpoint, receive_from_isr, receive_all, poll, take_received,
}
use picomesh.Arduino.Endpoint.Interrupts.{IsValid}
use picomesh.Arduino.Endpoint.Exchange.{outgoing, receive_all-IsValid, take_received-IsValid}

-- The endpoint stays valid, what is to be sent stays the same, and the frame fits its types.
pub record Polls (e : WirePeripheralEndpoint)
    (out : WirePeripheralEndpoint × Bool × Frame × Option DecodeError) : Type 0 where
  pub valid : IsValid out.0
  pub same : outgoing out.0 ≡ outgoing e
  pub canonical : IsCanonical out.2

take_received-decode-IsCanonical :
    {e : WirePeripheralEndpoint}
    → IsValid e
    → IsCanonical (decode_frame (some (take_received e).1) (take_received e).2).frame
unfolding take_received
take_received-decode-IsCanonical {e} v =
    decode_frame-IsCanonical (copy_n e.rx_length e.rx_bytes 0 (replicate 40 0) 0) e.rx_length
      (AllBytes-copy_n e.rx_length e.rx_bytes 0 (replicate 40 0) 0 v.rx_all (AllBytes-replicate 40))
      (omega (arith, v.rx_bound, length-copy_n e.rx_length e.rx_bytes 0 (replicate 40 0) 0))

module _ (W : TwoWire) (laws : IsLawful W) where
  pub receive_all-outgoing :
      (transfers : List (W.State × ℕ)) (e : WirePeripheralEndpoint)
      → outgoing (receive_all W e transfers) ≡ outgoing e
  unfolding receive_all receive_from_isr
  receive_all-outgoing [] e = refl
  receive_all-outgoing ((s, count) ∷ more) e =
      receive_all-outgoing more (receive_from_isr W s e count).1

  pub poll-Polls :
      {e : WirePeripheralEndpoint} {old : Frame} (error : Option DecodeError)
      (between : List (W.State × ℕ))
      → IsValid e
      → IsCanonical old
      → Polls e (poll W e old error between)
  unfolding poll take_received
  poll-Polls {e} {old} error between v c =
      if-elim (Polls e) (not e.rx_ready) (record { valid = v; same = refl; canonical = c })
        (if-elim (Polls e) (not (is_ok (decode_frame (some taken.1) taken.2)))
          (record { valid = taken-IsValid; same = taken-outgoing; canonical = c })
          (record {
            valid = taken-IsValid;
            same = taken-outgoing;
            canonical = take_received-decode-IsCanonical (receive_all-IsValid W laws between v);
          }))
    where
      taken : WirePeripheralEndpoint × List ℕ × ℕ
      taken = take_received (receive_all W e between)

      taken-IsValid : IsValid taken.0
      taken-IsValid = take_received-IsValid W laws (receive_all-IsValid W laws between v)

      taken-outgoing : outgoing taken.0 ≡ outgoing e
      taken-outgoing = receive_all-outgoing between e
