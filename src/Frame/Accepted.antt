-- ===== src/Frame/Accepted.antt =====
-- `decode_frame` accepts nothing but the wire format.
use picomesh.Base.{ℕ, suc, ◌-◌, ◌≤◌, ◌≡◌, sym, ◌∙◌, ap, ap₂, subst, List, [], ◌∷◌, ◌++◌}
use picomesh.Base.{arith, some, length, take, drop, get_or, replicate, AllBytes, ◌↔◌}
use picomesh.Base.{
  take-append-drop, length-append, length-take, length-drop, length-replicate, take-append,
  take-suc,
}
use picomesh.Base.{
  u8, AllBytes-take, AllBytes-drop, AllBytes-append, AllBytes-replicate, AllBytes-get_or,
}
use picomesh.Checksum.Laws.{total, total-append}
use picomesh.Frame.{
  Frame, IsFrame, DecodeError, DecodeResult, decode_frame, decode_fields, frame_magic,
  protocol_version,
}
use picomesh.Frame.Wire.{sent_length, wire, wire_body, closing}
use picomesh.Frame.Decode.{
  Accepts, decode_frame-of_Accepts, Accepts-of_decode_frame, payload-decode_fields, seven, sent,
  decode_frame-wire,
}

module _ (bytes : List ℕ) (count : ℕ) (all : AllBytes bytes) (fits : count ≤ length bytes)
    (a : Accepts bytes count) where
  abbrev k : ℕ
  k = get_or bytes 6 0

  abbrev carried : Frame
  carried = decode_fields bytes k

  -- The accepted bytes without the last.
  abbrev body : List ℕ
  body =
      frame_magic
      ∷ protocol_version
      ∷ get_or bytes 2 0
      ∷ get_or bytes 3 0
      ∷ get_or bytes 4 0
      ∷ get_or bytes 5 0
      ∷ k
      ∷ take k (drop 7 bytes)

  take-body : take count bytes ≡ body ++ get_or (drop 7 bytes) k 0 ∷ []
  take-body =
      ap₂ take count_suc (seven bytes 0 (omega (arith, a.exact)))
      ∙ ap₂
          (λ m v.
            m
            ∷ v
            ∷ get_or bytes 2 0
            ∷ get_or bytes 3 0
            ∷ get_or bytes 4 0
            ∷ get_or bytes 5 0
            ∷ k
            ∷ take (suc k) (drop 7 bytes))
          a.magic a.version
      ∙ ap
          (λ xs.
            frame_magic
            ∷ protocol_version
            ∷ get_or bytes 2 0
            ∷ get_or bytes 3 0
            ∷ get_or bytes 4 0
            ∷ get_or bytes 5 0
            ∷ k
            ∷ xs)
          (take-suc k (drop 7 bytes) 0 (omega (arith, a.exact, length-drop 7 bytes)))
    where
      count_suc : count ≡ suc (suc (suc (suc (suc (suc (suc (suc k)))))))
      count_suc = omega (arith, a.exact)

  sent_length-carried : sent_length carried ≡ k
  unfolding decode_fields
  sent_length-carried = omega (arith, a.bounded)

  payload-carried : carried.payload ≡ take k (drop 7 bytes) ++ replicate (32 - k) 0
  payload-carried = payload-decode_fields bytes k (omega (arith, a.exact)) a.bounded

  length-kept : k ≡ length (take k (drop 7 bytes))
  length-kept = omega (arith, a.exact, length-take k (drop 7 bytes), length-drop 7 bytes)

  take-carried : take (sent_length carried) carried.payload ≡ take k (drop 7 bytes)
  take-carried =
      ap₂ take sent_length-carried payload-carried
      ∙ take-append (take k (drop 7 bytes)) (replicate (32 - k) 0) k length-kept

  wire_body-carried : wire_body carried ≡ body
  unfolding decode_fields
  wire_body-carried =
      ap₂
        (λ n xs.
          frame_magic
          ∷ protocol_version
          ∷ get_or bytes 2 0
          ∷ get_or bytes 3 0
          ∷ get_or bytes 4 0
          ∷ get_or bytes 5 0
          ∷ n
          ∷ xs)
        sent_length-carried take-carried

  last-closing : get_or (drop 7 bytes) k 0 ≡ closing body
  last-closing = omega (
    arith,
    a.sound,
    ap total take-body,
    total-append body (get_or (drop 7 bytes) k 0 ∷ []),
    AllBytes-get_or (drop 7 bytes) k (AllBytes-drop 7 bytes all),
  )

  take-wire : take count bytes ≡ wire carried
  take-wire =
      take-body
      ∙ ap₂ (λ xs c. xs ++ c ∷ []) (sym wire_body-carried)
          (last-closing ∙ ap closing_of (sym wire_body-carried))
    where
      closing_of : List ℕ → ℕ
      closing_of xs = closing xs

  carried-IsFrame : IsFrame carried
  unfolding decode_fields
  carried-IsFrame = record {
    type_byte = AllBytes-get_or bytes 2 all;
    flags_byte = AllBytes-get_or bytes 3 all;
    node_byte = AllBytes-get_or bytes 4 all;
    sequence_byte = AllBytes-get_or bytes 5 all;
    length_byte = omega arith;
    payload_size =
        ap length payload-carried
        ∙ omega (
          arith,
          a.bounded,
          length-kept,
          length-append (take k (drop 7 bytes)) (replicate (32 - k) 0),
          length-replicate {A = ℕ} (32 - k) 0,
        );
    payload_bytes = subst AllBytes (sym payload-carried) (
        AllBytes-append (take k (drop 7 bytes)) (replicate (32 - k) 0)
          (AllBytes-take k (drop 7 bytes) (AllBytes-drop 7 bytes all))
          (AllBytes-replicate (32 - k)));
  }

  sent-carried : sent carried ≡ carried
  unfolding decode_fields
  sent-carried = λ i. record {
    type = get_or bytes 2 0;
    flags = get_or bytes 3 0;
    node_id = get_or bytes 4 0;
    sequence = get_or bytes 5 0;
    payload = same_payload i;
    payload_length = same_length i;
  }
    where
      same_payload :
          take (sent_length carried) carried.payload ++ replicate (32 - sent_length carried) 0
          ≡ carried.payload
      same_payload =
          ap₂ (λ xs (n : ℕ). xs ++ replicate (32 - n) 0) take-carried sent_length-carried
          ∙ sym payload-carried

      same_length : sent_length carried ≡ u8 k
      same_length = omega (arith, a.bounded)

-- A frame that needs no clamping, with zeros behind its payload.
pub record IsCanonical (f : Frame) : Type 0 where
  pub frame : IsFrame f
  pub canonical : sent f ≡ f

-- For a buffer of bytes and a length within it: the strict decoder accepts the buffer and returns
-- a frame exactly if that frame is canonical (its fields are bytes, its payload length is at most
-- 32, and its unused payload bytes are zero) and the buffer, up to the length, is the wire format
-- of the frame.
pub decode_frame_iff :
    (bytes : List ℕ) (count : ℕ) (f : Frame)
    → AllBytes bytes
    → count ≤ length bytes
    → (decode_frame (some bytes) count ≡ record { frame = f; error = DecodeError.none })
      ↔ (IsCanonical f × (take count bytes ≡ wire f))
decode_frame_iff bytes count f all fits = (forth, back)
  where
    forth :
        decode_frame (some bytes) count ≡ record { frame = f; error = DecodeError.none }
        → IsCanonical f × (take count bytes ≡ wire f)
    forth e =
        let a = Accepts-of_decode_frame bytes count fits (ap (λ (r : DecodeResult). r.error) e) in
        let same : decode_fields bytes (get_or bytes 6 0) ≡ f =
          ap (λ (r : DecodeResult). r.frame)
            (sym (decode_frame-of_Accepts bytes count fits a) ∙ e) in
        subst (λ g. IsCanonical g × (take count bytes ≡ wire g)) same
          (
            record {
              frame = carried-IsFrame bytes count all fits a;
              canonical = sent-carried bytes count all fits a;
            },
            take-wire bytes count all fits a,
          )

    back :
        IsCanonical f × (take count bytes ≡ wire f)
        → decode_frame (some bytes) count ≡ record { frame = f; error = DecodeError.none }
    back (c, e) =
        ap₂ (λ xs (n : ℕ). decode_frame (some xs) n)
          (sym (take-append-drop count bytes) ∙ ap (λ xs. xs ++ drop count bytes) e)
          (omega (arith, ap length e, length-take count bytes))
        ∙ decode_frame-wire (drop count bytes) c.frame
        ∙ ap (λ g. record { frame = g; error = DecodeError.none }) c.canonical
