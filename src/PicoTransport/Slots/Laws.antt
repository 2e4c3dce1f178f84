-- ===== src/PicoTransport/Slots/Laws.antt =====
-- An endpoint keeps its controller.
use picomesh.Base.{
  subst, ℕ, ◌≡◌, ◌≢◌, ◌<◌, refl, ◌∙◌, ap, List, [], ◌∷◌, false, Option, none, some, arith,
  Bool-cases, inl, inr,
}
use picomesh.Base.{ltb, get_or, set, length, length-set, get_or-set_ne, get_or-set_self}
use native.Mathlib.Decide.{ℕ_discrete}
use picomesh.PicoEndpoint.{Interrupt}
use picomesh.PicoTransport.Sdk.{PicoSdk}
use picomesh.PicoTransport.Slots.{Board, taken_by_other, index_of, attach, begin, irq_handler}

module _ (S : PicoSdk) where
  pub data Event : Type 0 where
    begins : ℕ → Option S.I2c → ℕ → Event
    interrupts : ℕ → (Option S.I2c → Interrupt) → Event

  pub step : Board S → Event → Board S
  step b (begins this instance address) = (begin S b this instance address).0
  step b (interrupts index read) = irq_handler S b index read

  pub run : Board S → List Event → Board S
  run b [] = b
  run b (e ∷ es) = run (step b e) es

  -- The table has two entries, and the one of this controller is this object.
  record Serves (this index : ℕ) (b : Board S) : Type 0 where
    size : length b.endpoints ≡ 2
    entry : get_or b.endpoints index none ≡ some this

  module _ (b : Board S) (this index : ℕ) (s : Serves this index b) where
    -- An entry that may be written holds nothing or the same object.
    entry-set :
        (object k : ℕ)
        → k < length b.endpoints
        → taken_by_other S (get_or b.endpoints k none) object ≡ false
        → get_or (set b.endpoints k (some object)) index none ≡ some this
    unfolding taken_by_other
    entry-set object k small allowed = elim (ℕ_discrete k index) [
      | yes e ↦
          let a : taken_by_other S (some this) object ≡ false =
            subst (λ (o : Option ℕ). taken_by_other S o object ≡ false)
              (ap (λ j. get_or b.endpoints j none) e ∙ s.entry) allowed in
          let same : object ≡ this = ground (arith, a) in
          subst (λ j. get_or (set b.endpoints k (some object)) j none ≡ some this) e
            (get_or-set_self b.endpoints k (some object) none small ∙ ap some same)
      | no ne ↦ get_or-set_ne b.endpoints k index (some object) none ne ∙ s.entry
    ]

    attach-Serves :
        (object : ℕ) (instance : S.I2c) (address : ℕ)
        → Serves this index (attach S b object instance address).0
    unfolding attach taken_by_other
    attach-Serves object instance address = elim (Bool-cases (ltb 0x7f address)) [
      | inl far ↦ rw far s
      | inr near ↦ elim (Bool-cases (ltb 1 (index_of S instance))) [
        | inl none_such ↦ rw (near, none_such) s
        | inr known ↦
            elim (Bool-cases
              (taken_by_other S (get_or b.endpoints (index_of S instance) none) object)) [
                | inl refused ↦ rw (near, known, refused) s
                | inr allowed ↦
                    rw (near, known, allowed)
                      (record {
                        size = length-set b.endpoints (index_of S instance) (some object) ∙ s.size;
                        entry =
                            entry-set object (index_of S instance) (ground (arith, known, s.size))
                              allowed;
                      })
              ]
      ]
    ]

    begin-Serves :
        (object : ℕ) (instance : Option S.I2c) (address : ℕ)
        → Serves this index (begin S b object instance address).0
    unfolding begin
    begin-Serves object none address = s
    begin-Serves object (some instance) address = attach-Serves object instance address

    irq_handler-endpoints :
        (k : ℕ) (read : Option S.I2c → Interrupt) (found : Option ℕ)
        → get_or b.endpoints k none ≡ found
        → (irq_handler S b k read).endpoints ≡ b.endpoints
    unfolding irq_handler
    irq_handler-endpoints k read none e = rw (irq_handler, e) refl
    irq_handler-endpoints k read (some object) e = rw (irq_handler, e) refl

    step-Serves : (e : Event) → Serves this index (step b e)
    unfolding step
    step-Serves (begins object instance address) = begin-Serves object instance address
    step-Serves (interrupts k read) =
        let same = irq_handler-endpoints k read (get_or b.endpoints k none) refl in
        record {
          size = ap length same ∙ s.size;
          entry = ap (λ (os : List (Option ℕ)). get_or os index none) same ∙ s.entry;
        }

    begin-refused :
        (other : ℕ) (instance : S.I2c) (address : ℕ)
        → this ≢ other
        → index_of S instance ≡ index
        → begin S b other (some instance) address ≡ (b, false)
    unfolding begin attach taken_by_other
    begin-refused other instance address ne at =
        let held : get_or b.endpoints (index_of S instance) none ≡ some this =
          ap (λ k. get_or b.endpoints k none) at ∙ s.entry in
        ground (arith, held, ne)

  run-Serves :
      (es : List Event) (b : Board S) (this index : ℕ)
      → Serves this index b
      → Serves this index (run b es)
  unfolding run
  run-Serves [] b this index s = s
  run-Serves (e ∷ es) b this index s =
      run-Serves es (step b e) this index (step-Serves b this index s e)

  -- Once an object has the entry of a controller in the table of two, whatever objects begin and
  -- whatever interrupts arrive, it keeps the entry, and `begin` of another object on that
  -- controller returns false and changes nothing.
  pub run-endpoints :
      (es : List Event) (b : Board S) (this other index : ℕ) (instance : S.I2c) (address : ℕ)
      → length b.endpoints ≡ 2
      → get_or b.endpoints index none ≡ some this
      → this ≢ other
      → index_of S instance ≡ index
      → (get_or (run b es).endpoints index none ≡ some this)
        × (begin S (run b es) other (some instance) address ≡ (run b es, false))
  run-endpoints es b this other index instance address size entry ne at =
      let s = run-Serves es b this index (record { size = size; entry = entry }) in
      (s.entry, begin-refused (run b es) this index s other instance address ne at)
