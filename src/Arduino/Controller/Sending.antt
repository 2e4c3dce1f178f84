-- ===== src/Arduino/Controller/Sending.antt =====
-- What `send` of WireControllerTransport puts on the bus.
use picomesh.Base.{
  Bool, ℕ, ◌≡◌, refl, sym, ◌∙◌, ap, ap₂, List, ◌∷◌, ◌++◌, some, arith, Bool-cases, inl, inr, ◌||◌,
}
use picomesh.Base.{◌==◌, ltb, if◌then◌else◌, length, take, take_all, length-take}
use picomesh.Arduino.TwoWire.{TwoWire, Delivers}
use picomesh.Arduino.Controller.{WireControllerTransport, send}

module _ (W : TwoWire) (laws : Delivers W) where
  -- A transmission of these bytes to this address, once `write` has taken them.
  transmission :
      (s : W.State) (address count : ℕ) (bytes : List ℕ)
      → (W.write (W.begin_transmission s address) (take count bytes)).1 ≡ count
      → let w = (W.write (W.begin_transmission s address) (take count bytes)).0 in
        (laws.target w ≡ address)
        × (laws.queued w ≡ take count bytes)
        × (laws.delivered w ≡ laws.delivered s)
  transmission s address count bytes whole =
      let b = laws.begin_lem s address in
      let w = laws.write_lem (W.begin_transmission s address) (take count bytes) in
      (
        w.0 ∙ b.0,
        w.1
            ∙ ap₂ (λ xs n. xs ++ take n (take count bytes)) b.1 whole
            ∙ take_all count (take count bytes) (omega (arith, length-take count bytes)),
        w.2 ∙ b.2,
      )

  -- Exactly if `send` returns true, its bytes have been delivered to its address.
  pub send-delivered :
      (t : WireControllerTransport W) (bytes : List ℕ) (count : ℕ)
      → laws.delivered (send W t (some bytes) count).0.wire ≡ (
          if (send W t (some bytes) count).1
          then (t.address, take count bytes) ∷ laws.delivered t.wire
          else laws.delivered t.wire)
  unfolding send
  send-delivered t bytes count =
      let begun = W.begin_transmission t.wire t.address in
      let written = W.write begun (take count bytes) in
      elim (Bool-cases ((count == 0) || ltb 255 count)) [
        | inl refused ↦ rw refused refl
        | inr allowed ↦ rw allowed (elim (Bool-cases (written.1 == count)) [
          | inl whole ↦
              let w = transmission t.wire t.address count bytes (ground (arith, whole)) in
              rw whole (
                laws.end_lem written.0
                ∙ ap₂ (λ x d. if (W.end_transmission written.0).1 == 0 then x ∷ d else d)
                    (ap₂ (λ a q. (a, q)) w.0 w.1) w.2)
          | inr partial ↦
              rw partial
                ((laws.write_lem begun (take count bytes)).2 ∙ (laws.begin_lem t.wire t.address).2)
        ])
      ]

  -- A transmission that `send` has added to those delivered is of its own bytes.
  pub delivered-send :
      (t : WireControllerTransport W) (bytes : List ℕ) (count : ℕ) {heard : List ℕ}
      → laws.delivered (send W t (some bytes) count).0.wire
        ≡ (t.address, heard) ∷ laws.delivered t.wire
      → heard ≡ take count bytes
  delivered-send t bytes count {heard} more =
      let before = laws.delivered t.wire in
      let outcome : Bool → List (ℕ × List ℕ) =
        λ ok. if ok then (t.address, take count bytes) ∷ before else before in
      let same : ((t.address, heard) ∷ before) ≡ outcome (send W t (some bytes) count).1 =
        sym more ∙ send-delivered t bytes count in
      elim (Bool-cases (send W t (some bytes) count).1) [
        | inl ok ↦ ground (arith, same ∙ ap outcome ok)
        | inr failed ↦ absurd (omega (arith, ap length (same ∙ ap outcome failed)))
      ]
