-- ===== src/Arduino/Controller/Laws.antt =====
-- What the controller receives from the bytes that the bus delivers.
use picomesh.Base.{
  ℕ, zero, suc, ◌+◌, ◌≤◌, ◌≡◌, refl, sym, ◌∙◌, ap, ap₂, subst, List, [], ◌∷◌, ◌++◌, true, false,
  some, arith, append_assoc,
}
use native.Mathlib.Nat.{mod-eq_of_lt}
use picomesh.Base.{
  ◌==◌, ltb, lt→ltb, if◌then◌else◌, length, take, drop, set-append, length-append, take_all, u8,
  AllBytes, Pointer,
}
use picomesh.Frame.{
  Frame, IsFrame, DecodeError, decode_frame, frame_length_from_prefix, max_encoded_frame_size,
}
use picomesh.Frame.Wire.{wire, length-wire}
use picomesh.Frame.Decode.{sent}
use picomesh.Frame.Prefix.{frame_length_from_prefix_bounds}
use picomesh.Frame.Buffers.{frame_length_from_prefix-buffer}
use picomesh.Transport.{IsBounded, WritesWithin}
use picomesh.Arduino.TwoWire.{TwoWire, IsLawful, drain, drain_lem}
use picomesh.Arduino.Controller.{WireControllerTransport, copy_available, receive, transport}

-- How many bytes `receive` asks for.
abbrev pub quantity : ℕ → ℕ
quantity capacity =
    u8 (if ltb capacity max_encoded_frame_size then capacity else max_encoded_frame_size)

module _ (W : TwoWire) (laws : IsLawful W) where
  -- One round stores the next byte behind those stored so far.
  copy_available-step :
      (left u y : ℕ) (us : List ℕ) (s : W.State) (before target : List ℕ) (count available : ℕ)
      → laws.unread s ≡ u ∷ us
      → count ≡ length before
      → available ≡ count + length (u ∷ us)
      → copy_available W (suc left) s (before ++ y ∷ target) count available
        ≡ copy_available W left (W.read s).0 ((before ++ u ∷ []) ++ target) (suc count) available
  unfolding copy_available
  copy_available-step left u y us s before target count available e at all =
      let some_left : (W.available s == 0) ≡ false =
        ground (arith, laws.available_count s, ap length e) in
      let in_range : ltb count available ≡ true = lt→ltb count available (omega arith) in
      let first : (W.read s).1 ≡ u = (laws.read_first s u us e).0 in
      let byte : u8 u ≡ u = mod-eq_of_lt (subst AllBytes e (laws.unread_bytes s)).0 in
      rw (some_left, in_range, first, byte, set-append before y u target count at)
        (ap (λ xs. copy_available W left (W.read s).0 xs (suc count) available)
          (sym (append_assoc before (u ∷ []) target)))

  -- The first loop of `receive`: the bytes stand in the buffer, up to the capacity.
  copy_available_lem :
      (left : ℕ) (us : List ℕ) (s : W.State) (before target : List ℕ) (count available : ℕ)
      → laws.unread s ≡ us
      → left ≤ length target
      → count ≡ length before
      → available ≡ count + length us
      → ((copy_available W left s (before ++ target) count available).1
          ≡ before ++ (take left us ++ drop (length (take left us)) target))
        × ((copy_available W left s (before ++ target) count available).2
            ≡ count + length (take left us))
        × (laws.unread (copy_available W left s (before ++ target) count available).0
            ≡ drop left us)
  unfolding copy_available
  copy_available_lem zero us s before target count available e room at all = (refl, omega arith, e)
  copy_available_lem (suc left) [] s before target count available e room at all =
      let spent : (W.available s == 0) ≡ true =
        ground (arith, laws.available_count s, ap length e) in
      rw spent (refl, omega arith, e)
  copy_available_lem (suc left) (u ∷ us) s before [] count available e room at all =
      absurd (omega arith)
  copy_available_lem (suc left) (u ∷ us) s before (y ∷ target) count available e room at all =
      let rest =
        copy_available_lem left us (W.read s).0 (before ++ u ∷ []) target (suc count) available
          (laws.read_first s u us e).1 (omega arith) (omega (arith, length-append before (u ∷ [])))
          (omega arith) in
      rw (copy_available-step left u y us s before target count available e at all) (
        rest.0 ∙ append_assoc before (u ∷ []) (take left us ++ drop (length (take left us)) target),
        omega (arith, rest.1),
        rest.2,
      )

  -- The bytes that one call of `receive` gets from the bus.
  abbrev pub delivered : WireControllerTransport W → ℕ → List ℕ
  delivered t capacity = laws.unread (W.request_from t.wire t.address (quantity capacity)).0

  delivered-le :
      (t : WireControllerTransport W) (capacity : ℕ) → length (delivered t capacity) ≤ capacity
  delivered-le t capacity =
      let asked : quantity capacity ≤ capacity = ground arith in
      omega (
        arith,
        laws.request_count t.wire t.address (quantity capacity),
        laws.request_bound t.wire t.address (quantity capacity),
        asked,
      )

  -- They stand at the beginning of the buffer, and nothing is left unread.
  receive_lem :
      (t : WireControllerTransport W) (buffer : List ℕ) (capacity : ℕ)
      → 1 ≤ capacity
      → capacity ≤ length buffer
      → let us = delivered t capacity in
        let n = frame_length_from_prefix (some (us ++ drop (length us) buffer)) (length us) in
        let out = receive W t (some buffer) capacity in
        (out.1 ≡ some (us ++ drop (length us) buffer))
        × (out.2 ≡ (if n == 0 then length us else n))
        × (laws.unread out.0.wire ≡ [])
  unfolding receive
  receive_lem t buffer capacity some_room room =
      rw (nonzero, same_buffer, same_count) (refl, ground arith, emptied)
    where
      us : List ℕ
      us = delivered t capacity

      answer : W.State × ℕ
      answer = W.request_from t.wire t.address (quantity capacity)

      copied : W.State × List ℕ × ℕ
      copied = copy_available W capacity answer.0 buffer 0 answer.1

      nonzero : (capacity == 0) ≡ false
      nonzero = ground arith

      whole : take capacity us ≡ us
      whole = take_all capacity us (delivered-le t capacity)

      copying :
          (copied.1 ≡ take capacity us ++ drop (length (take capacity us)) buffer)
          × (copied.2 ≡ 0 + length (take capacity us))
          × (laws.unread copied.0 ≡ drop capacity us)
      copying =
          copy_available_lem capacity us answer.0 [] buffer 0 answer.1 refl room refl
            (omega (arith, laws.request_count t.wire t.address (quantity capacity)))

      same_buffer : copied.1 ≡ us ++ drop (length us) buffer
      same_buffer = copying.0 ∙ ap (λ vs. vs ++ drop (length vs) buffer) whole

      same_count : copied.2 ≡ length us
      same_count = copying.1 ∙ omega (arith, ap length whole)

      emptied : laws.unread (drain W (W.available copied.0) copied.0) ≡ []
      emptied =
          subst (λ n. laws.unread (drain W n copied.0) ≡ []) (sym (laws.available_count copied.0))
            (drain_lem W laws (laws.unread copied.0) copied.0 refl)

  receive_zero :
      (t : WireControllerTransport W) (buffer : List ℕ)
      → receive W t (some buffer) 0 ≡ (t, some buffer, 0)
  unfolding receive
  receive_zero t buffer = refl

  receive-WritesWithin :
      (t : WireControllerTransport W) (buffer : List ℕ) (capacity : ℕ)
      → capacity ≤ length buffer
      → WritesWithin buffer capacity (receive W t (some buffer) capacity).1
  receive-WritesWithin t buffer zero room = (
    [],
    omega arith,
    ap (λ (out : WireControllerTransport W × Pointer × ℕ). out.1) (receive_zero t buffer),
  )
  receive-WritesWithin t buffer (suc capacity) room = (
    delivered t (suc capacity),
    delivered-le t (suc capacity),
    (receive_lem t buffer (suc capacity) (omega arith) room).0,
  )

  receive-le :
      (t : WireControllerTransport W) (buffer : List ℕ) (capacity : ℕ)
      → capacity ≤ length buffer
      → (receive W t (some buffer) capacity).2 ≤ capacity
  receive-le t buffer zero room =
      omega (
        arith,
        ap (λ (out : WireControllerTransport W × Pointer × ℕ). out.2) (receive_zero t buffer),
      )
  receive-le t buffer (suc capacity) room =
      let us = delivered t (suc capacity) in
      ground (
        arith,
        (receive_lem t buffer (suc capacity) (omega arith) room).1,
        delivered-le t (suc capacity),
        frame_length_from_prefix_bounds (some (us ++ drop (length us) buffer)) (length us),
      )

  pub transport-IsBounded : IsBounded (transport W)
  transport-IsBounded = record { writes_within = receive-WritesWithin; returns_within = receive-le }

  -- A request that is answered with nothing gives no bytes.
  pub receive-nothing :
      (t : WireControllerTransport W) (buffer : List ℕ) (capacity : ℕ)
      → 1 ≤ capacity
      → capacity ≤ length buffer
      → delivered t capacity ≡ []
      → (receive W t (some buffer) capacity).2 ≡ 0
  receive-nothing t buffer capacity some_room room nothing =
      let us = delivered t capacity in
      ground (
        arith,
        (receive_lem t buffer capacity some_room room).1,
        frame_length_from_prefix_bounds (some (us ++ drop (length us) buffer)) (length us),
        ap length nothing,
      )

  -- If the bus answers a request with a frame whose fields fit their C++ types, and any padding
  -- behind it, `receive` returns the length of the frame and a buffer that decodes at this length
  -- to the frame as it was sent, and leaves nothing unread.
  pub receive-wire :
      {f : Frame} (t : WireControllerTransport W) (buffer padding : List ℕ) (capacity : ℕ)
      → IsFrame f
      → capacity ≤ length buffer
      → laws.unread (W.request_from t.wire t.address (quantity capacity)).0 ≡ wire f ++ padding
      → let out = receive W t (some buffer) capacity in
        (decode_frame out.1 out.2 ≡ record { frame = sent f; error = DecodeError.none })
        × (out.2 ≡ length (wire f))
        × (laws.unread out.0.wire ≡ [])
  receive-wire {f} t buffer padding capacity fr room answer =
      (ap₂ decode_frame got.0 same_count ∙ found.1, same_count, got.2)
    where
      us : List ℕ
      us = delivered t capacity

      rest : List ℕ
      rest = drop (length us) buffer

      out : WireControllerTransport W × Pointer × ℕ
      out = receive W t (some buffer) capacity

      n : ℕ
      n = frame_length_from_prefix (some (us ++ rest)) (length us)

      long : length us ≡ length (wire f) + length padding
      long = ap length answer ∙ length-append (wire f) padding

      got :
          (out.1 ≡ some (us ++ rest))
          × (out.2 ≡ (if n == 0 then length us else n))
          × (laws.unread out.0.wire ≡ [])
      got =
          receive_lem t buffer capacity
            (omega (arith, long, length-wire fr, delivered-le t capacity)) room

      found :
          (n ≡ length (wire f))
          × (decode_frame (some (us ++ rest)) (length (wire f))
              ≡ record { frame = sent f; error = DecodeError.none })
      found = frame_length_from_prefix-buffer us padding rest fr answer

      same_count : out.2 ≡ length (wire f)
      same_count = got.1 ∙ ground (arith, found.0, length-wire fr)
