-- ===== src/Arduino/Active.antt =====
-- src/arduino/wire_transport.h and .cpp: `begin`, the static callbacks, `active_` and `wire_` of
-- WirePeripheralEndpoint.
pub mod Laws
use picomesh.Base.{ℕ, Bool, true, false, not, Option, none, some}
use picomesh.Base.{◌==◌, if◌then◌else◌}
use picomesh.Arduino.TwoWire.{TwoWire}
use picomesh.Arduino.Endpoint.{WirePeripheralEndpoint, receive_from_isr, request_from_isr}

-- `*at = value`, in a store of one object for each address.
unfoldable pub assign {ℓ} : {A : Type ℓ} → (ℕ → A) → ℕ → A → ℕ → A
assign store at value p = if p == at then value else store p

-- An endpoint whole: its buffers, and the address `wire_` of the bus it was started on.
pub record Object : Type 0 where
  pub buffers : WirePeripheralEndpoint
  pub wire : Option ℕ

-- `active_ != nullptr && active_ != this`
unfoldable pub taken_by_other : Option ℕ → ℕ → Bool
taken_by_other none this = false
taken_by_other (some active) this = not (active == this)

module _ (W : TwoWire) where
  -- The static `active_`, the objects by their addresses, and the buses (`Wire`, `Wire1`) by
  -- theirs.
  pub record Sketch : Type 0 where
    pub active : Option ℕ
    pub objects : ℕ → Object
    pub buses : ℕ → W.State

  unfoldable pub begin : Sketch → ℕ → ℕ → ℕ → Sketch × Bool
  unfolding taken_by_other assign
  begin s this address wire = if taken_by_other s.active this then (s, false) else (
    record s {
      active = some this;
      objects = assign s.objects this (record (s.objects this) { wire = some wire });
      buses = assign s.buses wire (W.on_request (W.on_receive (W.begin (s.buses wire) address)));
    },
    true,
  )

  -- `active_->receive_from_isr(count)` on the bus that the active object refers to; a null `wire_`,
  -- which no object has once it is the active one, is left out.
  unfoldable pub receive_callback : Sketch → ℕ → Sketch
  unfolding assign
  receive_callback s count = elim s.active [
    | none ↦ s
    | some active ↦ elim (s.objects active).wire [
      | none ↦ s
      | some wire ↦
          let handled = receive_from_isr W (s.buses wire) (s.objects active).buffers count in
          record s {
            objects = assign s.objects active (record (s.objects active) { buffers = handled.1 });
            buses = assign s.buses wire handled.0;
          }
    ]
  ]

  unfoldable pub request_callback : Sketch → Sketch
  unfolding assign
  request_callback s = elim s.active [
    | none ↦ s
    | some active ↦ elim (s.objects active).wire [
      | none ↦ s
      | some wire ↦ record s {
        buses = assign s.buses wire (request_from_isr W (s.buses wire) (s.objects active).buffers);
      }
    ]
  ]
