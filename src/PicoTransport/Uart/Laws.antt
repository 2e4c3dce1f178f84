-- ===== src/PicoTransport/Uart/Laws.antt =====
-- What the UART transport receives.
use picomesh.Base.{
  ℕ, zero, suc, ◌+◌, ◌≤◌, ◌≡◌, refl, sym, ◌∙◌, ap, List, [], ◌∷◌, ◌++◌, none, some, arith,
  append_assoc, Bool-cases, inl, inr,
}
use picomesh.Base.{◌==◌, length, drop, set, set-append, length-append, u8}
use picomesh.Transport.{IsBounded, WritesWithin}
use picomesh.PicoTransport.Sdk.{PicoSdk}
use picomesh.PicoTransport.Uart.{UartTransport, read_waiting, receive_from, receive, transport}

module _ (S : PicoSdk) where
  -- The loop reads while there is room and something waits, and stores one byte behind the other.
  read_waiting-writes :
      (left : ℕ) (s : S.State) (i : S.Uart) (before target : List ℕ) (count : ℕ)
      → left ≤ length target
      → count ≡ length before
      → (written : List ℕ) × (length written ≤ left)
        × ((read_waiting S left s i (before ++ target) count).1
            ≡ before ++ (written ++ drop (length written) target))
        × ((read_waiting S left s i (before ++ target) count).2 ≡ count + length written)
  unfolding read_waiting
  read_waiting-writes zero s i before target count room at = ([], omega arith, refl, omega arith)
  read_waiting-writes (suc left) s i before [] count room at = absurd (omega arith)
  read_waiting-writes (suc left) s i before (y ∷ target) count room at =
      elim (Bool-cases (S.uart_is_readable s i)) [
        | inl waits ↦
            let b = u8 (S.uart_getc s i).1 in
            let r =
              read_waiting-writes left (S.uart_getc s i).0 i (before ++ b ∷ []) target (count + 1)
                (omega arith) (omega (arith, length-append before (b ∷ []))) in
            let here : set (before ++ y ∷ target) count b ≡ (before ++ b ∷ []) ++ target =
              set-append before y b target count at ∙ sym (append_assoc before (b ∷ []) target) in
            rw (waits, here)
              (
                b ∷ r.0,
                omega (arith, r.1),
                r.2 ∙ append_assoc before (b ∷ []) (r.0 ++ drop (length r.0) target),
                omega (arith, r.3),
              )
        | inr idle ↦ rw idle ([], omega arith, refl, omega arith)
      ]

  receive_from-writes :
      (t : UartTransport S) (i : S.Uart) (buffer : List ℕ) (capacity : ℕ)
      → capacity ≤ length buffer
      → WritesWithin buffer capacity (receive_from S t i buffer capacity).1
        × ((receive_from S t i buffer capacity).2 ≤ capacity)
  unfolding receive_from
  receive_from-writes t i buffer capacity room =
      let r = read_waiting-writes capacity t.hardware i [] buffer 0 room refl in
      elim (Bool-cases (capacity == 0)) [
        | inl nothing ↦ rw nothing (([], omega arith, refl), omega arith)
        | inr some_room ↦ rw some_room ((r.0, r.1, ap some r.2), omega (arith, r.1, r.3))
      ]

  -- Whatever the UART delivers and for however long, `receive` changes at most as many bytes as
  -- the capacity, all at the beginning of the buffer, and returns at most the capacity, which the
  -- buffer has.
  pub receive-writes :
      (t : UartTransport S) (buffer : List ℕ) (capacity : ℕ)
      → capacity ≤ length buffer
      → WritesWithin buffer capacity (receive S t (some buffer) capacity).1
        × ((receive S t (some buffer) capacity).2 ≤ capacity)
  unfolding receive
  receive-writes t buffer capacity room =
      elim t.instance_ptr
        as (λ p.
          WritesWithin buffer capacity
            (receive S (record t { instance_ptr = p }) (some buffer) capacity).1
          × ((receive S (record t { instance_ptr = p }) (some buffer) capacity).2 ≤ capacity)) [
            | none ↦ (([], omega arith, refl), omega arith)
            | some i ↦
                receive_from-writes (record t { instance_ptr = some i }) i buffer capacity room
          ]

  pub transport-IsBounded : IsBounded (transport S)
  transport-IsBounded = record {
    writes_within = λ t buffer capacity room. (receive-writes t buffer capacity room).0;
    returns_within = λ t buffer capacity room. (receive-writes t buffer capacity room).1;
  }
