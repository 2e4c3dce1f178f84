-- ===== src/Frame/Wire.antt =====
-- The wire format of docs/protocol.md as a list of bytes, and `encode_frame` against it.
use picomesh.Base.{
  ℕ, zero, suc, ◌+◌, ◌-◌, ◌%◌, ◌<◌, min, ◌≡◌, refl, sym, ◌∙◌, ap, List, [], ◌∷◌, ◌++◌,
}
use picomesh.Base.{
  append_assoc, arith, some, length, take, set, replicate, copy_n, copy_n_lem, AllBytes,
}
use picomesh.Base.{length-append, length-take, drop-replicate, take-append, set-append}
use picomesh.Base.{AllBytes-take, AllBytes-append}
use picomesh.Checksum.{checksum8}
use native.Mathlib.Nat.{mod-eq_of_lt}
use picomesh.Checksum.Laws.{total, total-append, checksum8-total}
use picomesh.Frame.{
  Frame, IsFrame, encode_frame, encode_header, frame_magic, protocol_version, max_payload_size,
}

abbrev pub sent_length : Frame → ℕ
sent_length f = min f.payload_length max_payload_size

abbrev pub wire_header : Frame → List ℕ
wire_header f =
    frame_magic ∷ protocol_version ∷ f.type ∷ f.flags ∷ f.node_id ∷ f.sequence ∷ sent_length f ∷ []

abbrev pub wire_body : Frame → List ℕ
wire_body f = wire_header f ++ take (sent_length f) f.payload

-- The byte that makes the sum of all bytes a multiple of 256.
abbrev pub closing : List ℕ → ℕ
closing xs = (256 - total xs % 256) % 256

abbrev pub wire : Frame → List ℕ
wire f = wire_body f ++ closing (wire_body f) ∷ []

length-wire_body : {f : Frame} → IsFrame f → length (wire_body f) ≡ 7 + sent_length f
length-wire_body {f} v = omega (arith, length-take (sent_length f) f.payload, v.payload_size)

pub length-wire : {f : Frame} → IsFrame f → length (wire f) ≡ 8 + sent_length f
length-wire {f} v =
    omega (arith, length-wire_body v, length-append (wire_body f) (closing (wire_body f) ∷ []))

wire_body-AllBytes : {f : Frame} → IsFrame f → AllBytes (wire_body f)
wire_body-AllBytes {f} v =
    AllBytes-append (wire_header f) (take (sent_length f) f.payload) (omega arith)
      (AllBytes-take (sent_length f) f.payload v.payload_bytes)

pub wire-AllBytes : {f : Frame} → IsFrame f → AllBytes (wire f)
wire-AllBytes {f} v =
    AllBytes-append (wire_body f) (closing (wire_body f) ∷ []) (wire_body-AllBytes v)
      (omega arith, tt)

-- The sum over a whole frame is a multiple of 256.
pub total-wire : (f : Frame) → total (wire f) % 256 ≡ 0
total-wire f = omega (arith, total-append (wire_body f) (closing (wire_body f) ∷ []))

encode_header-wire :
    {f : Frame} → IsFrame f → encode_header f (sent_length f) ≡ wire_header f ++ replicate 33 0
unfolding encode_header
encode_header-wire {f} v = rw (mod-eq_of_lt v.type_byte, mod-eq_of_lt small)
  where
    small : sent_length f < 256
    small = omega arith

-- The array before the checksum is stored.
copied :
    {f : Frame}
    → IsFrame f
    → copy_n (sent_length f) f.payload 0 (encode_header f (sent_length f)) 7
      ≡ wire_body f ++ 0 ∷ replicate (32 - sent_length f) 0
copied {f} v =
    rw
      (
        encode_header-wire v,
        copy_n_lem n f.payload 0 (wire_header f) (replicate 33 0) 7 (omega (arith, v.payload_size))
            (omega arith) refl,
        drop-replicate n 33 zero,
      )
      (ap (λ k. wire_header f ++ (take n f.payload ++ replicate k 0)) one_more
        ∙ sym (append_assoc (wire_header f) (take n f.payload) (replicate (suc (32 - n)) 0)))
  where
    n : ℕ
    n = sent_length f

    one_more : 33 - n ≡ suc (32 - n)
    one_more = omega arith

-- Storing the checksum of a body right behind it closes the body.
store_checksum :
    (body rest : List ℕ) (k : ℕ)
    → k ≡ length body
    → set (body ++ 0 ∷ rest) k (checksum8 (some (body ++ 0 ∷ rest)) k)
      ≡ (body ++ closing body ∷ []) ++ rest
store_checksum body rest k at =
    set-append body 0 (checksum8 (some (body ++ 0 ∷ rest)) k) rest k at
    ∙ ap (λ c. body ++ c ∷ rest) closes
    ∙ sym (append_assoc body (closing body ∷ []) rest)
  where
    closes : checksum8 (some (body ++ 0 ∷ rest)) k ≡ closing body
    closes =
        checksum8-total (body ++ 0 ∷ rest) k (omega (arith, length-append body (0 ∷ rest)))
        ∙ ap (λ xs. (256 - total xs % 256) % 256) (take-append body (0 ∷ rest) k at)

-- For a frame whose fields fit their C++ types, `encode_frame` writes the wire format and leaves
-- zeros behind it, and its length is that of the wire format.
pub encode_frame-wire :
    {f : Frame}
    → IsFrame f
    → ((encode_frame f).bytes ≡ wire f ++ replicate (32 - sent_length f) 0)
      × ((encode_frame f).active ≡ length (wire f))
unfolding encode_frame
encode_frame-wire {f} v = (
  rw (copied v) (
      store_checksum (wire_body f) (replicate (32 - sent_length f) 0) (8 + sent_length f - 1)
        (omega (arith, length-wire_body v))),
  omega (arith, length-wire v),
)
