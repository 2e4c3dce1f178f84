-- ===== src/Frame/Decode.antt =====
-- `decode_frame` against the wire format: what it accepts, and what it returns.
use picomesh.Base.{ℕ, zero, ◌+◌, ◌-◌, ◌%◌, ◌≤◌, ◌≡◌, refl, ◌∙◌, ap, ap₂, List, [], ◌∷◌, ◌++◌}
use picomesh.Base.{append_assoc, arith, some, length, take, drop, get_or, replicate, copy_n_lem}
use picomesh.Base.{length-append, length-take, drop-replicate, take-append}
use native.Mathlib.Nat.{mod-eq_of_lt}
use picomesh.Checksum.Laws.{total, verify_checksum8-total}
use picomesh.Frame.{
  Frame, IsFrame, DecodeError, encode_frame, decode_frame, decode_fields, decode_encoded,
  frame_magic, protocol_version, max_payload_size,
}
use picomesh.Frame.Wire.{
  sent_length, wire, wire_body, closing, length-wire, total-wire, encode_frame-wire,
}

-- The frame that arrives: the length is clamped, and what stands behind the payload is zero.
abbrev pub sent : Frame → Frame
sent f = record f {
  payload = take (sent_length f) f.payload ++ replicate (32 - sent_length f) 0;
  payload_length = sent_length f;
}

-- The conditions of docs/api_reference.md on the first `count` bytes.
pub record Accepts (bytes : List ℕ) (count : ℕ) : Type 0 where
  pub magic : get_or bytes 0 0 ≡ frame_magic
  pub version : get_or bytes 1 0 ≡ protocol_version
  pub bounded : get_or bytes 6 0 ≤ max_payload_size
  pub exact : count ≡ 8 + get_or bytes 6 0
  pub sound : total (take count bytes) % 256 ≡ 0

module _ (bytes : List ℕ) (count : ℕ) (fits : count ≤ length bytes) where
  pub decode_frame-of_Accepts :
      Accepts bytes count
      → decode_frame (some bytes) count
        ≡ record { frame = decode_fields bytes (get_or bytes 6 0); error = DecodeError.none }
  unfolding decode_frame
  decode_frame-of_Accepts a = ground (arith, verify_checksum8-total bytes count fits)

  pub Accepts-of_decode_frame :
      (decode_frame (some bytes) count).error ≡ DecodeError.none → Accepts bytes count
  unfolding decode_frame
  Accepts-of_decode_frame e = ground (arith, verify_checksum8-total bytes count fits)

pub payload-decode_fields :
    (bytes : List ℕ) (n : ℕ)
    → 7 + n ≤ length bytes
    → n ≤ 32
    → (decode_fields bytes n).payload ≡ take n (drop 7 bytes) ++ replicate (32 - n) 0
unfolding decode_fields
payload-decode_fields bytes n fits small =
    copy_n_lem n bytes 7 [] (replicate 32 0) 0 fits small refl
    ∙ ap (λ xs. take n (drop 7 bytes) ++ xs) (drop-replicate n 32 zero)

-- The start of a wire frame is the frame, whatever is stored behind it.
decode_fields-wire :
    {f : Frame} (rest : List ℕ)
    → IsFrame f
    → decode_fields (wire f ++ rest) (sent_length f) ≡ sent f
unfolding decode_fields
decode_fields-wire {f} rest v = λ i. record {
  type = f.type;
  flags = f.flags;
  node_id = f.node_id;
  sequence = f.sequence;
  payload = stored i;
  payload_length = mod-eq_of_lt {n = sent_length f} {m = 256} (omega arith) i;
}
  where
    n : ℕ
    n = sent_length f

    kept : take n (drop 7 (wire f ++ rest)) ≡ take n f.payload
    kept =
        ap (take n) (append_assoc (take n f.payload) (closing (wire_body f) ∷ []) rest)
        ∙ take-append (take n f.payload) (closing (wire_body f) ∷ rest) n
            (omega (arith, length-take n f.payload, v.payload_size))

    stored : (decode_fields (wire f ++ rest) n).payload ≡ take n f.payload ++ replicate (32 - n) 0
    stored =
        payload-decode_fields (wire f ++ rest) n
          (omega (arith, length-append (wire f) rest, length-wire v)) (omega arith)
        ∙ ap (λ xs. xs ++ replicate (32 - n) 0) kept

wire-Accepts : {f : Frame} (rest : List ℕ) → IsFrame f → Accepts (wire f ++ rest) (length (wire f))
wire-Accepts {f} rest v = record {
  magic = refl;
  version = refl;
  bounded = omega arith;
  exact = length-wire v;
  sound =
      ap (λ xs. total xs % 256) (take-append (wire f) rest (length (wire f)) refl) ∙ total-wire f;
}

-- Decoding a wire frame gives the frame.
pub decode_frame-wire :
    {f : Frame} (rest : List ℕ)
    → IsFrame f
    → decode_frame (some (wire f ++ rest)) (length (wire f))
      ≡ record { frame = sent f; error = DecodeError.none }
decode_frame-wire {f} rest v =
    decode_frame-of_Accepts (wire f ++ rest) (length (wire f))
      (omega (arith, length-append (wire f) rest)) (wire-Accepts rest v)
    ∙ ap (λ g. record { frame = g; error = DecodeError.none }) (decode_fields-wire rest v)

-- Every frame whose fields fit their C++ types, encoded and then decoded, comes back without
-- error, with an oversized payload length clamped to 32 and the payload bytes behind that length
-- zero.
pub decode-encode :
    {f : Frame}
    → IsFrame f
    → decode_encoded (encode_frame f) ≡ record { frame = sent f; error = DecodeError.none }
unfolding decode_encoded
decode-encode {f} v =
    ap₂ (λ bytes count. decode_frame (some bytes) count) (encode_frame-wire v).0
      (encode_frame-wire v).1
    ∙ decode_frame-wire (replicate (32 - sent_length f) 0) v

-- Any list of seven bytes at least is its first seven and the rest.
pub seven {ℓ} :
    {A : Type ℓ} (xs : List A) (d : A)
    → 7 ≤ length xs
    → xs
      ≡ get_or xs 0 d
        ∷ get_or xs 1 d
        ∷ get_or xs 2 d
        ∷ get_or xs 3 d
        ∷ get_or xs 4 d
        ∷ get_or xs 5 d
        ∷ get_or xs 6 d
        ∷ drop 7 xs
seven [] d h = absurd (omega arith)
seven (a ∷ []) d h = absurd (omega arith)
seven (a ∷ b ∷ []) d h = absurd (omega arith)
seven (a ∷ b ∷ c ∷ []) d h = absurd (omega arith)
seven (a ∷ b ∷ c ∷ e ∷ []) d h = absurd (omega arith)
seven (a ∷ b ∷ c ∷ e ∷ g ∷ []) d h = absurd (omega arith)
seven (a ∷ b ∷ c ∷ e ∷ g ∷ j ∷ []) d h = absurd (omega arith)
seven (a ∷ b ∷ c ∷ e ∷ g ∷ j ∷ k ∷ xs) d h = refl
