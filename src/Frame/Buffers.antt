-- ===== src/Frame/Buffers.antt =====
-- Encoded frames in arrays of 40 bytes: copied in to be sent, and copied out to be decoded.
use picomesh.Base.{
  ℕ, ◌+◌, ◌-◌, ◌≤◌, ◌≡◌, refl, ◌∙◌, ap, ap₂, append_assoc, List, [], ◌++◌, some, arith, length,
  take, drop, replicate, copy_n, copy_n_lem, take-append, length-append, length-take,
  length-replicate,
}
use picomesh.Frame.{
  Frame, IsFrame, DecodeError, encode_frame, decode_frame, frame_length_from_prefix,
}
use picomesh.Frame.Prefix.{frame_length_from_prefix-wire}
use picomesh.Frame.Wire.{wire, sent_length, length-wire, encode_frame-wire}
use picomesh.Frame.Decode.{sent, decode_frame-wire}

module _ {f : Frame} (fr : IsFrame f) where
  pub encode_frame-full : length (encode_frame f).bytes ≡ 40
  encode_frame-full =
      ap length (encode_frame-wire fr).0
      ∙ omega (
        arith,
        length-wire fr,
        length-append (wire f) (replicate (32 - sent_length f) 0),
        length-replicate {A = ℕ} (32 - sent_length f) 0,
      )

  encode_frame-fits : (encode_frame f).active ≤ 40
  encode_frame-fits = omega (arith, (encode_frame-wire fr).1, length-wire fr)

  -- The frame stands at the beginning of the buffer it is copied to.
  pub copy_n-encode_frame :
      (target : List ℕ)
      → length target ≡ 40
      → copy_n (encode_frame f).active (encode_frame f).bytes 0 target 0
        ≡ wire f ++ drop (encode_frame f).active target
  copy_n-encode_frame target size =
      copy_n_lem (encode_frame f).active (encode_frame f).bytes 0 [] target 0
        (omega (arith, encode_frame-full, encode_frame-fits))
        (omega (arith, encode_frame-fits, size)) refl
      ∙ ap (λ bs. bs ++ drop (encode_frame f).active target)
          (ap₂ take (encode_frame-wire fr).1 (encode_frame-wire fr).0
            ∙ take-append (wire f) (replicate (32 - sent_length f) 0) (length (wire f)) refl)

  -- A buffer whose first bytes are a frame decodes as it, when these are copied out.
  pub decode_frame-copy_n :
      (buffer : List ℕ) (n : ℕ)
      → length buffer ≡ 40
      → n ≤ 40
      → take n buffer ≡ wire f
      → decode_frame (some (copy_n n buffer 0 (replicate 40 0) 0)) n
        ≡ record { frame = sent f; error = DecodeError.none }
  decode_frame-copy_n buffer n full bound held =
      ap₂ (λ xs k. decode_frame (some xs) k) copied size ∙ decode_frame-wire (drop n zeros) fr
    where
      zeros : List ℕ
      zeros = replicate 40 0

      size : n ≡ length (wire f)
      size = omega (arith, length-take n buffer, ap length held)

      copied : copy_n n buffer 0 zeros 0 ≡ wire f ++ drop n zeros
      copied =
          copy_n_lem n buffer 0 [] zeros 0 (omega arith)
            (omega (arith, length-replicate {A = ℕ} 40 0)) refl
          ∙ ap (λ xs. xs ++ drop n zeros) held

-- A buffer that begins with a frame and anything behind it: its length is found, and at that
-- length it is decoded.
pub frame_length_from_prefix-buffer :
    {f : Frame} (us padding rest : List ℕ)
    → IsFrame f
    → us ≡ wire f ++ padding
    → (frame_length_from_prefix (some (us ++ rest)) (length us) ≡ length (wire f))
      × (decode_frame (some (us ++ rest)) (length (wire f))
          ≡ record { frame = sent f; error = DecodeError.none })
frame_length_from_prefix-buffer {f} us padding rest fr begins = (
  ap (λ vs. frame_length_from_prefix (some vs) (length us)) whole
      ∙ ground (arith, (frame_length_from_prefix-wire (padding ++ rest) (length us) fr).0, long),
  ap (λ vs. decode_frame (some vs) (length (wire f))) whole
      ∙ decode_frame-wire (padding ++ rest) fr,
)
  where
    whole : us ++ rest ≡ wire f ++ (padding ++ rest)
    whole = ap (λ vs. vs ++ rest) begins ∙ append_assoc (wire f) padding rest

    long : length us ≡ length (wire f) + length padding
    long = ap length begins ∙ length-append (wire f) padding
