-- ===== src/Arduino/Active/Laws.antt =====
-- One endpoint serves the bus.
use picomesh.Base.{ℕ, ◌≡◌, ◌≢◌, refl, ◌∙◌, List, [], ◌∷◌, false, some, arith, Bool-cases, inl, inr}
use picomesh.Arduino.TwoWire.{TwoWire}
use picomesh.Arduino.Active.{
  Sketch, assign, taken_by_other, begin, receive_callback, request_callback,
}

module _ (W : TwoWire) where
  -- A call of `begin` with the object, its address and the bus, or an interrupt of a bus, with the
  -- state the transfer has left that bus in.
  pub data Event : Type 0 where
    begins : ℕ → ℕ → ℕ → Event
    receives : ℕ → W.State → ℕ → Event
    requests : ℕ → W.State → Event

  unfoldable pub step : Sketch W → Event → Sketch W
  unfolding assign
  step s (begins this address wire) = (begin W s this address wire).0
  step s (receives bus hardware count) =
      receive_callback W (record s { buses = assign s.buses bus hardware }) count
  step s (requests bus hardware) =
      request_callback W (record s { buses = assign s.buses bus hardware })

  unfoldable pub run : Sketch W → List Event → Sketch W
  run s [] = s
  run s (e ∷ es) = run (step s e) es

  -- The object is the active one, and has a bus.
  pub record Serves (this : ℕ) (s : Sketch W) : Type 0 where
    pub active : s.active ≡ some this
    pub bus : ℕ
    pub wire : (s.objects this).wire ≡ some bus

  -- The object still serves, and nothing has happened to another.
  record Keeps (this other : ℕ) (s s' : Sketch W) : Type 0 where
    serves : Serves this s'
    apart : s'.objects other ≡ s.objects other

  module _ (s : Sketch W) (this other : ℕ) (serves : Serves this s) (ne : this ≢ other) where
    begin-Keeps : (object address wire : ℕ) → Keeps this other s (begin W s object address wire).0
    unfolding begin taken_by_other assign
    begin-Keeps object address wire = elim (Bool-cases (taken_by_other s.active object)) [
      | inl refused ↦ rw refused (record { serves = serves; apart = refl })
      | inr allowed ↦
          let same : object ≡ this = ground (arith, allowed, serves.active) in
          rw (allowed, same)
            (record {
              serves = record { active = refl; bus = wire; wire = ground arith };
              apart = ground (arith, ne);
            })
    ]

    receive-Keeps : (count : ℕ) → Keeps this other s (receive_callback W s count)
    unfolding receive_callback assign
    receive-Keeps count =
        rw (serves.active, serves.wire)
          (record {
            serves = record { active = refl; bus = serves.bus; wire = ground (arith, serves.wire) };
            apart = ground (arith, ne);
          })

    request-Keeps : Keeps this other s (request_callback W s)
    unfolding request_callback assign
    request-Keeps =
        rw (serves.active, serves.wire)
          (record {
            serves = record { active = refl; bus = serves.bus; wire = serves.wire };
            apart = refl;
          })

  step-Keeps :
      (s : Sketch W) (this other : ℕ) (e : Event)
      → Serves this s
      → this ≢ other
      → Keeps this other s (step s e)
  unfolding step
  step-Keeps s this other (begins object address wire) serves ne =
      begin-Keeps s this other serves ne object address wire
  step-Keeps s this other (receives bus hardware count) serves ne =
      let k =
        receive-Keeps (record s { buses = assign s.buses bus hardware }) this other
          (record { active = serves.active; bus = serves.bus; wire = serves.wire }) ne count in
      record { serves = k.serves; apart = k.apart }
  step-Keeps s this other (requests bus hardware) serves ne =
      let k =
        request-Keeps (record s { buses = assign s.buses bus hardware }) this other
          (record { active = serves.active; bus = serves.bus; wire = serves.wire }) ne in
      record { serves = k.serves; apart = k.apart }

  -- Once an object is the active endpoint of a sketch and has a bus, whatever objects begin on
  -- whatever buses and whatever transfers and requests arrive, it stays the active one and has a
  -- bus, any other object is as before, its `wire_` included, and `begin` of another on any bus
  -- returns false and changes nothing in the sketch.
  pub run-active :
      (es : List Event) (s : Sketch W) (this other address wire : ℕ)
      → Serves this s
      → this ≢ other
      → Serves this (run s es)
        × ((run s es).objects other ≡ s.objects other)
        × (begin W (run s es) other address wire ≡ (run s es, false))
  unfolding run begin taken_by_other
  run-active [] s this other address wire serves ne =
      (serves, refl, ground (arith, serves.active, ne))
  run-active (e ∷ es) s this other address wire serves ne =
      let k = step-Keeps s this other e serves ne in
      let rest = run-active es (step s e) this other address wire k.serves ne in
      (rest.0, rest.1 ∙ k.apart, rest.2)
