-- ===== src/Arduino/Endpoint/Answering.antt =====
-- What `request_from_isr` of WirePeripheralEndpoint gives the controller.
use picomesh.Base.{◌≤◌, ◌≡◌, ◌∙◌, ap, ap₂, [], ◌++◌, arith, Bool-cases, inl, inr}
use picomesh.Base.{ltb, length, take, take_all}
use picomesh.Arduino.TwoWire.{TwoWire, Delivers}
use picomesh.Arduino.Endpoint.{WirePeripheralEndpoint, request_from_isr}
use picomesh.Arduino.Endpoint.Exchange.{outgoing}

module _ (W : TwoWire) (laws : Delivers W) where
  -- A request queues what the endpoint has to send, if that is within the 32 bytes of the queue.
  pub request_from_isr-queued :
      (s : W.State) (e : WirePeripheralEndpoint)
      → laws.queued s ≡ []
      → length (outgoing e) ≤ 32
      → laws.queued (request_from_isr W s e) ≡ outgoing e
  unfolding request_from_isr
  request_from_isr-queued s e empty room = elim (Bool-cases (ltb 0 e.tx_length)) [
    | inl some_bytes ↦
        let taken : (W.write s (outgoing e)).1 ≡ length (outgoing e) =
          laws.write_room s (outgoing e) (omega (arith, ap length empty)) in
        rw some_bytes (
          (laws.write_lem s (outgoing e)).1
          ∙ ap₂ (λ q n. q ++ take n (outgoing e)) empty taken
          ∙ take_all (length (outgoing e)) (outgoing e) (omega arith))
    | inr none_left ↦
        let zero_length : e.tx_length ≡ 0 = ground (arith, none_left) in
        rw (none_left, zero_length) empty
  ]
