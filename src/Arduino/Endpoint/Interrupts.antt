-- ===== src/Arduino/Endpoint/Interrupts.antt =====
-- What an interrupt makes ready of the bytes that arrive.
use picomesh.Base.{
  ℕ, zero, suc, ◌+◌, ◌≤◌, ◌<◌, ◌≡◌, refl, sym, ◌∙◌, ap, ap₂, subst, List, [], ◌∷◌, ◌++◌, true,
  false, Option, none, some, arith, append_assoc,
}
use native.Mathlib.Nat.{mod-eq_of_lt}
use picomesh.Base.{
  ◌==◌, ltb, lt→ltb, le→not-ltb, if◌then◌else◌, length, take, drop, set-append, take-append,
  length-append, length-take, length-drop, u8, AllBytes, AllBytes-append, AllBytes-take,
  AllBytes-drop,
}
use picomesh.Arduino.TwoWire.{TwoWire, IsLawful, drain, drain_lem}
use picomesh.Arduino.Endpoint.{WirePeripheralEndpoint, new_endpoint, receive_loop, receive_from_isr}

-- The sizes of the arrays, which the lengths fit, and the bytes received.
pub record IsValid (e : WirePeripheralEndpoint) : Type 0 where
  pub rx_size : length e.rx_bytes ≡ 40
  pub tx_size : length e.tx_bytes ≡ 40
  pub rx_bound : e.rx_length ≤ 40
  pub tx_bound : e.tx_length ≤ 40
  pub rx_all : AllBytes e.rx_bytes
  pub ready_length : e.rx_ready ≡ ltb 0 e.rx_length

pub new_endpoint-IsValid : IsValid new_endpoint
new_endpoint-IsValid = record {
  rx_size = refl;
  tx_size = refl;
  rx_bound = omega arith;
  tx_bound = omega arith;
  rx_all = omega arith;
  ready_length = refl;
}

-- What is ready for the application.
abbrev pub mailbox : WirePeripheralEndpoint → Option (List ℕ)
mailbox e = if e.rx_ready then some (take e.rx_length e.rx_bytes) else none

-- A transfer without bytes makes nothing ready.
abbrev pub nonempty : List ℕ → Option (List ℕ)
nonempty [] = none
nonempty (b ∷ bs) = some (b ∷ bs)

filled :
    (ks rest : List ℕ)
    → (if ltb 0 (length ks) then some (take (length ks) (ks ++ rest)) else none) ≡ nonempty ks
filled [] rest = refl
filled (k ∷ ks) rest =
    rw (lt→ltb 0 (length (k ∷ ks)) (omega arith))
      (ap some (take-append (k ∷ ks) rest (length (k ∷ ks)) refl))

module _ (W : TwoWire) (laws : IsLawful W) where
  more : (s : W.State) (u : ℕ) (us : List ℕ) → laws.unread s ≡ u ∷ us → (W.available s == 0) ≡ false
  more s u us e = ground (arith, laws.available_count s, ap length e)

  spent : (s : W.State) → laws.unread s ≡ [] → (W.available s == 0) ≡ true
  spent s e = ground (arith, laws.available_count s, ap length e)

  -- A round with room left stores the next byte; one without drops it.
  receive_loop-step :
      (left u y : ℕ) (us : List ℕ) (s : W.State) (before target : List ℕ) (count : ℕ)
      → laws.unread s ≡ u ∷ us
      → count ≡ length before
      → count < 40
      → receive_loop W (suc left) s (before ++ y ∷ target) count
        ≡ receive_loop W left (W.read s).0 ((before ++ u ∷ []) ++ target) (suc count)
  unfolding receive_loop
  receive_loop-step left u y us s before target count e at room =
      let first : (W.read s).1 ≡ u = (laws.read_first s u us e).0 in
      let byte : u8 u ≡ u = mod-eq_of_lt (subst AllBytes e (laws.unread_bytes s)).0 in
      let next : u8 (count + 1) ≡ suc count = omega arith in
      rw
        (
          more s u us e,
          lt→ltb count 40 room,
          first,
          byte,
          next,
          set-append before y u target count at,
        )
        (ap (λ xs. receive_loop W left (W.read s).0 xs (suc count))
          (sym (append_assoc before (u ∷ []) target)))

  receive_loop-full :
      (left u : ℕ) (us : List ℕ) (s : W.State) (stored : List ℕ) (count : ℕ)
      → laws.unread s ≡ u ∷ us
      → 40 ≤ count
      → receive_loop W (suc left) s stored count ≡ receive_loop W left (W.read s).0 stored count
  unfolding receive_loop
  receive_loop-full left u us s stored count e full =
      rw (more s u us e, le→not-ltb count 40 full) refl

  receive_loop_lem :
      (left : ℕ) (us : List ℕ) (s : W.State) (before target : List ℕ) (count : ℕ)
      → laws.unread s ≡ us
      → count ≡ length before
      → count + length target ≡ 40
      → let kept = take (length target) (take left us) in
        ((receive_loop W left s (before ++ target) count).1
          ≡ before ++ (kept ++ drop (length kept) target))
        × ((receive_loop W left s (before ++ target) count).2 ≡ count + length kept)
        × (laws.unread (receive_loop W left s (before ++ target) count).0 ≡ drop left us)
  unfolding receive_loop
  receive_loop_lem zero us s before [] count e at full = (refl, omega arith, e)
  receive_loop_lem zero us s before (y ∷ target) count e at full = (refl, omega arith, e)
  receive_loop_lem (suc left) [] s before [] count e at full = rw (spent s e) (refl, omega arith, e)
  receive_loop_lem (suc left) [] s before (y ∷ target) count e at full =
      rw (spent s e) (refl, omega arith, e)
  receive_loop_lem (suc left) (u ∷ us) s before [] count e at full =
      rw (receive_loop-full left u us s (before ++ []) count e (omega arith))
        (receive_loop_lem left us (W.read s).0 before [] count (laws.read_first s u us e).1 at full)
  receive_loop_lem (suc left) (u ∷ us) s before (y ∷ target) count e at full =
      let rest =
        receive_loop_lem left us (W.read s).0 (before ++ u ∷ []) target (suc count)
          (laws.read_first s u us e).1 (omega (arith, length-append before (u ∷ [])))
          (omega arith) in
      let kept = take (length target) (take left us) in
      rw (receive_loop-step left u y us s before target count e at (omega arith)) (
        rest.0 ∙ append_assoc before (u ∷ []) (kept ++ drop (length kept) target),
        omega (arith, rest.1),
        rest.2,
      )

  -- What is kept of a transfer.
  abbrev pub kept : W.State → ℕ → List ℕ
  kept s count = take 40 (take count (laws.unread s))

  kept-le : (s : W.State) (count : ℕ) → length (kept s count) ≤ 40
  kept-le s count = omega (arith, length-take 40 (take count (laws.unread s)))

  module _ {e : WirePeripheralEndpoint} (v : IsValid e) (s : W.State) (count : ℕ) where
    received :
        ((receive_loop W count s e.rx_bytes 0).1
          ≡ kept s count ++ drop (length (kept s count)) e.rx_bytes)
        × ((receive_loop W count s e.rx_bytes 0).2 ≡ length (kept s count))
        × (laws.unread (receive_loop W count s e.rx_bytes 0).0 ≡ drop count (laws.unread s))
    received =
        let out = receive_loop W count s e.rx_bytes 0 in
        let us = take count (laws.unread s) in
        let all =
          receive_loop_lem count (laws.unread s) s [] e.rx_bytes 0 refl refl
            (omega (arith, v.rx_size)) in
        (
          subst (λ n. out.1 ≡ take n us ++ drop (length (take n us)) e.rx_bytes) v.rx_size all.0,
          subst (λ n. out.2 ≡ length (take n us)) v.rx_size (omega (arith, all.1)),
          all.2,
        )

    receive_from_isr-unread : laws.unread (receive_from_isr W s e count).0 ≡ []
    unfolding receive_from_isr
    receive_from_isr-unread =
        let s' = (receive_loop W count s e.rx_bytes 0).0 in
        subst (λ n. laws.unread (drain W n s') ≡ []) (sym (laws.available_count s'))
          (drain_lem W laws (laws.unread s') s' refl)

    pub receive_from_isr-IsValid : IsValid (receive_from_isr W s e count).1
    unfolding receive_from_isr
    receive_from_isr-IsValid = record {
      rx_size =
          ap length received.0
          ∙ omega (
            arith,
            length-append (kept s count) (drop (length (kept s count)) e.rx_bytes),
            length-drop (length (kept s count)) e.rx_bytes,
            kept-le s count,
            v.rx_size,
          );
      tx_size = v.tx_size;
      rx_bound = omega (arith, received.1, kept-le s count);
      tx_bound = v.tx_bound;
      rx_all = subst AllBytes (sym received.0) (
          AllBytes-append (kept s count) (drop (length (kept s count)) e.rx_bytes)
            (AllBytes-take 40 (take count (laws.unread s))
              (AllBytes-take count (laws.unread s) (laws.unread_bytes s)))
            (AllBytes-drop (length (kept s count)) e.rx_bytes v.rx_all));
      ready_length = refl;
    }

    receive_from_isr-mailbox : mailbox (receive_from_isr W s e count).1 ≡ nonempty (kept s count)
    unfolding receive_from_isr
    receive_from_isr-mailbox =
        let rest = drop (length (kept s count)) e.rx_bytes in
        ap₂ (λ n bytes. if ltb 0 n then some (take n bytes) else none) received.1 received.0
        ∙ filled (kept s count) rest

    -- On a valid endpoint, whatever was ready, a transfer leaves nothing unread and makes ready
    -- the first 40 of the bytes that are there and within its count, or nothing if there are
    -- none; the endpoint stays valid and what it is to send is as before.
    pub receive_from_isr_lem :
        (laws.unread (receive_from_isr W s e count).0 ≡ [])
        × IsValid (receive_from_isr W s e count).1
        × (mailbox (receive_from_isr W s e count).1
            ≡ nonempty (take 40 (take count (laws.unread s))))
        × ((receive_from_isr W s e count).1.tx_bytes ≡ e.tx_bytes)
        × ((receive_from_isr W s e count).1.tx_length ≡ e.tx_length)
    unfolding receive_from_isr
    receive_from_isr_lem =
        (receive_from_isr-unread, receive_from_isr-IsValid, receive_from_isr-mailbox, refl, refl)
