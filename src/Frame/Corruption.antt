-- ===== src/Frame/Corruption.antt =====
-- What damage the strict decoder notices.
use picomesh.Base.{
  inl, inr, not, Bool-cases, if◌then◌else◌, get_or-set_ne, ◌-◌, ℕ, ◌≤◌, ◌<◌, ◌≡◌, ◌≢◌, refl, sym,
  ◌∙◌, ap, List, ◌++◌,
}
use picomesh.Base.{
  arith, some, length, get_or, set, take, take-set, take-append, length-append, length-set,
  AllBytes-get_or,
}
use picomesh.Checksum.{verify_checksum8}
use picomesh.Checksum.Laws.{total, total-set}
use picomesh.Frame.{
  Frame, IsFrame, DecodeError, DecodeResult, bad_checksum, failed, decode_fields, decode_frame,
}
use picomesh.Frame.Wire.{wire, wire-AllBytes, length-wire, total-wire, sent_length}
use picomesh.Frame.Decode.{Accepts, Accepts-of_decode_frame}

-- A frame in which any one byte, of the header, the payload or the checksum, is replaced by
-- another byte is refused at its length, whatever bytes follow it in the buffer.
pub decode_frame-set :
    {f : Frame} (rest : List ℕ) (i v : ℕ)
    → IsFrame f
    → i < length (wire f)
    → v < 256
    → v ≢ get_or (wire f) i 0
    → (decode_frame (some (set (wire f ++ rest) i v)) (length (wire f))).error ≢ DecodeError.none
decode_frame-set {f} rest i v fr at hv ne e = omega (
  arith,
  accepted.sound,
  ap total changed,
  total-set (wire f) i v at,
  total-wire f,
  AllBytes-get_or (wire f) i (wire-AllBytes fr),
)
  where
    n : ℕ
    n = length (wire f)

    accepted : Accepts (set (wire f ++ rest) i v) n
    accepted =
        Accepts-of_decode_frame (set (wire f ++ rest) i v) n
          (omega (arith, length-set (wire f ++ rest) i v, length-append (wire f) rest)) e

    changed : take n (set (wire f ++ rest) i v) ≡ set (wire f) i v
    changed =
        take-set n i (wire f ++ rest) v ∙ ap (λ xs. set xs i v) (take-append (wire f) rest n refl)

-- A frame that is decoded at another length than its own, cut short or with bytes behind it, is
-- refused.
decode_frame_cut :
    {f : Frame} (rest : List ℕ) (count : ℕ)
    → IsFrame f
    → count ≤ length (wire f ++ rest)
    → count ≢ length (wire f)
    → (decode_frame (some (wire f ++ rest)) count).error ≢ DecodeError.none
decode_frame_cut {f} rest count fr fits ne e =
    ne ((Accepts-of_decode_frame (wire f ++ rest) count fits e).exact ∙ sym (length-wire fr))

-- With another checksum a frame is refused for its checksum.
pub decode_frame-set_last :
    {f : Frame} (rest : List ℕ) (v : ℕ)
    → IsFrame f
    → v < 256
    → v ≢ get_or (wire f) (length (wire f) - 1) 0
    → decode_frame (some (set (wire f ++ rest) (length (wire f) - 1) v)) (length (wire f))
      ≡ failed bad_checksum
unfolding decode_frame
decode_frame-set_last {f} rest v fr hv ne =
    elim (Bool-cases (verify_checksum8 (some bytes) (length (wire f)))) [
      | inl good ↦ absurd (
          decode_frame-set rest (length (wire f) - 1) v fr (omega (arith, length-wire fr)) hv ne (
            ap (λ (r : DecodeResult). r.error)
              {y = record { frame = decode_fields bytes (sent_length f); error = DecodeError.none }}
              (checked ∙ rw good refl)))
      | inr bad ↦ checked ∙ rw bad refl
    ]
  where
    bytes : List ℕ
    bytes = set (wire f ++ rest) (length (wire f) - 1) v

    same : (k : ℕ) → k < 7 → get_or bytes k 0 ≡ get_or (wire f ++ rest) k 0
    same k h =
        get_or-set_ne (wire f ++ rest) (length (wire f) - 1) k v 0 (omega (arith, length-wire fr))

    checked : decode_frame (some bytes) (length (wire f)) ≡ (
        if not (verify_checksum8 (some bytes) (length (wire f)))
        then failed bad_checksum
        else record { frame = decode_fields bytes (sent_length f); error = DecodeError.none })
    checked =
        ground
          (arith, same 0 (omega arith), same 1 (omega arith), same 6 (omega arith), length-wire fr)
