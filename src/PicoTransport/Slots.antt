-- ===== src/PicoTransport/Slots.antt =====
-- ports/pico-sdk/picomesh_pico_transport.cpp: `begin` and the interrupt handlers of the two I2C
-- controllers, which share the static table `endpoints_`.
pub mod Laws
use picomesh.Base.{ℕ, List, [], ◌∷◌, Bool, true, false, not, Option, none, some}
use picomesh.Base.{◌==◌, ltb, if◌then◌else◌, get_or, set, replicate}
use picomesh.PicoEndpoint.{I2cPeripheralEndpoint, Interrupt, new_endpoint, handle_irq}
use picomesh.PicoTransport.Sdk.{PicoSdk}

module _ (S : PicoSdk) where
  -- The static `endpoints_` as indexes of objects, the objects' `instance_`, `instance_index_` and
  -- mailboxes, and the hardware.
  pub record Board : Type 0 where
    pub endpoints : List (Option ℕ)
    pub instances : List (Option S.I2c)
    pub instance_indexes : List ℕ
    pub mailboxes : List I2cPeripheralEndpoint
    pub hardware : S.State

  -- `endpoints_[index] != nullptr && endpoints_[index] != this`
  unfoldable pub taken_by_other : Option ℕ → ℕ → Bool
  taken_by_other none this = false
  taken_by_other (some endpoint) this = not (endpoint == this)

  unfoldable pub index_of : S.I2c → ℕ
  index_of instance =
      if S.same_i2c instance S.i2c0 then 0 else if S.same_i2c instance S.i2c1 then 1 else 0xff

  -- The calls of the SDK at the end of `begin`.
  unfoldable pub start : S.State → S.I2c → ℕ → ℕ → S.State
  start hardware instance index address =
      let hardware = S.i2c_set_slave_mode hardware instance address in
      let hardware = S.irq_set_exclusive_handler hardware index in
      let hardware = S.irq_set_enabled hardware index in S.set_intr_mask hardware instance

  unfoldable pub attach : Board → ℕ → S.I2c → ℕ → Board × Bool
  unfolding taken_by_other
  attach b this instance address =
      let index = index_of instance in
      if ltb 0x7f address
      then (b, false)
      else if ltb 1 index
      then (b, false)
      else if taken_by_other (get_or b.endpoints index none) this
      then (b, false)
      else (
        record b {
          instances = set b.instances this (some instance);
          instance_indexes = set b.instance_indexes this index;
          endpoints = set b.endpoints index (some this);
          hardware = start b.hardware instance index address;
        },
        true,
      )

  unfoldable pub begin : Board → ℕ → Option S.I2c → ℕ → Board × Bool
  unfolding attach
  begin b this none address = (b, false)
  begin b this (some instance) address = attach b this instance address

  -- The handler of controller `index`; `read` is what the status and data registers of a
  -- controller hold, and the object reads those of its own `instance_`.
  unfoldable pub irq_handler : Board → ℕ → (Option S.I2c → Interrupt) → Board
  irq_handler b index read = elim (get_or b.endpoints index none) [
    | none ↦ b
    | some this ↦
        let endpoint = get_or b.mailboxes this new_endpoint in
        record b {
          mailboxes =
              set b.mailboxes this (handle_irq endpoint (read (get_or b.instances this none))).0;
        }
  ]
