-- ===== src/PicoTransport/I2c/Laws.antt =====
-- What the I2C controller receives.
use picomesh.Base.{
  ℕ, zero, suc, ◌+◌, ◌≤◌, ◌≡◌, refl, sym, ◌∙◌, ap, ap₂, subst, List, [], ◌++◌, false, none, some,
  arith,
}
use picomesh.Base.{◌==◌, length, drop, copy_n, copy_n_lem, take_all, length-append, Pointer}
use picomesh.Frame.{Frame, IsFrame, DecodeError, decode_frame, frame_length_from_prefix}
use picomesh.Frame.Wire.{wire, length-wire}
use picomesh.Frame.Decode.{sent}
use picomesh.Frame.Prefix.{frame_length_from_prefix_bounds}
use picomesh.Frame.Buffers.{frame_length_from_prefix-buffer}
use picomesh.Transport.{IsBounded, WritesWithin}
use picomesh.PicoTransport.Sdk.{PicoSdk, IsLawful, ℤ, pos, negsuc}
use picomesh.PicoTransport.I2c.{
  I2cControllerTransport, received_count, receive_from, receive, transport,
}

received_count-le :
    (r : ℤ) (destination : Pointer) (capacity : ℕ)
    → ((n : ℕ) → r ≡ pos n → n ≤ capacity)
    → received_count r destination ≤ capacity
unfolding received_count
received_count-le (negsuc n) destination capacity h = omega arith
received_count-le (pos n) destination capacity h =
    ground (arith, h n refl, frame_length_from_prefix_bounds destination n)

module _ (S : PicoSdk) (laws : IsLawful S) (t : I2cControllerTransport S) (i : S.I2c) where
  abbrev answered : ℕ → List ℕ
  answered capacity = (S.i2c_read_blocking t.hardware i t.address capacity).1

  -- The bytes read stand at the beginning of the buffer.
  receive_from_lem :
      (buffer : List ℕ) (capacity : ℕ)
      → 1 ≤ capacity
      → capacity ≤ length buffer
      → let stored = answered capacity ++ drop (length (answered capacity)) buffer in
        ((receive_from S t i buffer capacity).1 ≡ some stored)
        × ((receive_from S t i buffer capacity).2
            ≡ received_count (S.i2c_read_blocking t.hardware i t.address capacity).2 (some stored))
  unfolding receive_from
  receive_from_lem buffer capacity some_room room =
      let us = answered capacity in
      let nonzero : (capacity == 0) ≡ false = ground arith in
      let stored : copy_n (length us) us 0 buffer 0 ≡ us ++ drop (length us) buffer =
        copy_n_lem (length us) us 0 [] buffer 0 (omega arith)
          (omega (arith, laws.read_bound t.hardware i t.address capacity, room)) refl
        ∙ ap (λ vs. vs ++ drop (length us) buffer) (take_all (length us) us (omega arith)) in
      rw (nonzero, stored) (refl, refl)

  receive_from_zero : (buffer : List ℕ) → receive_from S t i buffer 0 ≡ (t, some buffer, 0)
  unfolding receive_from
  receive_from_zero buffer = refl

  receive_from-WritesWithin :
      (buffer : List ℕ) (capacity : ℕ)
      → capacity ≤ length buffer
      → WritesWithin buffer capacity (receive_from S t i buffer capacity).1
  receive_from-WritesWithin buffer zero room = (
    [],
    omega arith,
    ap (λ (out : I2cControllerTransport S × Pointer × ℕ). out.1) (receive_from_zero buffer),
  )
  receive_from-WritesWithin buffer (suc capacity) room = (
    answered (suc capacity),
    laws.read_bound t.hardware i t.address (suc capacity),
    (receive_from_lem buffer (suc capacity) (omega arith) room).0,
  )

  receive_from-le :
      (buffer : List ℕ) (capacity : ℕ)
      → capacity ≤ length buffer
      → (receive_from S t i buffer capacity).2 ≤ capacity
  receive_from-le buffer zero room = omega (
    arith,
    ap (λ (out : I2cControllerTransport S × Pointer × ℕ). out.2) (receive_from_zero buffer),
  )
  receive_from-le buffer (suc capacity) room =
      let us = answered (suc capacity) in
      subst (λ n. n ≤ suc capacity)
        (sym (receive_from_lem buffer (suc capacity) (omega arith) room).1)
        (received_count-le (S.i2c_read_blocking t.hardware i t.address (suc capacity)).2
          (some (us ++ drop (length us) buffer)) (suc capacity)
          (λ n e. omega (
            arith,
            laws.read_count t.hardware i t.address (suc capacity) n e,
            laws.read_bound t.hardware i t.address (suc capacity),
          )))

  receive_from-frame :
      {f : Frame} (buffer padding : List ℕ) (capacity : ℕ)
      → IsFrame f
      → capacity ≤ length buffer
      → answered capacity ≡ wire f ++ padding
      → (S.i2c_read_blocking t.hardware i t.address capacity).2 ≡ pos (length (answered capacity))
      → let out = receive_from S t i buffer capacity in
        (decode_frame out.1 out.2 ≡ record { frame = sent f; error = DecodeError.none })
        × (out.2 ≡ length (wire f))
  unfolding received_count
  receive_from-frame {f} buffer padding capacity fr room begins counted =
      (ap₂ decode_frame got.0 same_count ∙ found.1, same_count)
    where
      us : List ℕ
      us = answered capacity

      rest : List ℕ
      rest = drop (length us) buffer

      out : I2cControllerTransport S × Pointer × ℕ
      out = receive_from S t i buffer capacity

      long : length us ≡ length (wire f) + length padding
      long = ap length begins ∙ length-append (wire f) padding

      got :
          (out.1 ≡ some (us ++ rest))
          × (out.2
              ≡ received_count
                  (S.i2c_read_blocking t.hardware i t.address capacity).2
                  (some (us ++ rest)))
      got =
          receive_from_lem buffer capacity
            (omega (arith, long, length-wire fr, laws.read_bound t.hardware i t.address capacity))
            room

      found :
          (frame_length_from_prefix (some (us ++ rest)) (length us) ≡ length (wire f))
          × (decode_frame (some (us ++ rest)) (length (wire f))
              ≡ record { frame = sent f; error = DecodeError.none })
      found = frame_length_from_prefix-buffer us padding rest fr begins

      counts : received_count (pos (length us)) (some (us ++ rest)) ≡ length (wire f)
      counts = ground (arith, found.0, long, length-wire fr)

      same_count : out.2 ≡ length (wire f)
      same_count = got.1 ∙ ap (λ r. received_count r (some (us ++ rest))) counted ∙ counts

module _ (S : PicoSdk) (laws : IsLawful S) where
  receive-WritesWithin :
      (t : I2cControllerTransport S) (buffer : List ℕ) (capacity : ℕ)
      → capacity ≤ length buffer
      → WritesWithin buffer capacity (receive S t (some buffer) capacity).1
  unfolding receive
  receive-WritesWithin t buffer capacity room =
      elim t.instance_ptr
        as (λ p.
          WritesWithin buffer capacity
            (receive S (record t { instance_ptr = p }) (some buffer) capacity).1) [
              | none ↦ ([], omega arith, refl)
              | some i ↦
                  receive_from-WritesWithin S laws (record t { instance_ptr = some i }) i buffer
                    capacity room
            ]

  receive-le :
      (t : I2cControllerTransport S) (buffer : List ℕ) (capacity : ℕ)
      → capacity ≤ length buffer
      → (receive S t (some buffer) capacity).2 ≤ capacity
  unfolding receive
  receive-le t buffer capacity room =
      elim t.instance_ptr
        as (λ p. (receive S (record t { instance_ptr = p }) (some buffer) capacity).2 ≤ capacity) [
          | none ↦ omega arith
          | some i ↦
              receive_from-le S laws (record t { instance_ptr = some i }) i buffer capacity room
        ]

  -- If the read delivers a frame whose fields fit their C++ types, and any padding behind it, and
  -- reports their number, `receive` of the I2C controller returns the length of the frame and a
  -- buffer that decodes at this length to the frame as it was sent.
  pub receive_frame :
      {f : Frame} (t : I2cControllerTransport S) (i : S.I2c) (buffer padding : List ℕ)
      (capacity : ℕ)
      → t.instance_ptr ≡ some i
      → IsFrame f
      → capacity ≤ length buffer
      → (S.i2c_read_blocking t.hardware i t.address capacity).1 ≡ wire f ++ padding
      → (S.i2c_read_blocking t.hardware i t.address capacity).2 ≡ pos (length (wire f ++ padding))
      → let out = receive S t (some buffer) capacity in
        (decode_frame out.1 out.2 ≡ record { frame = sent f; error = DecodeError.none })
        × (out.2 ≡ length (wire f))
  unfolding receive
  receive_frame t i buffer padding capacity present fr room begins counted = rw present (
      receive_from-frame S laws (record t { instance_ptr = some i }) i buffer padding capacity fr
        room begins (counted ∙ ap pos (ap length (sym begins))))

  pub transport-IsBounded : IsBounded (transport S)
  transport-IsBounded = record { writes_within = receive-WritesWithin; returns_within = receive-le }
