-- ===== src/Frame/Result.antt =====
-- The frame that `decode_frame` returns, accepted or not.
use picomesh.Base.{
  ℕ, ◌≤◌, ◌≡◌, refl, sym, subst, List, true, false, some, arith, Bool-cases, inl, inr,
}
use picomesh.Base.{length, AllBytes, AllBytes-replicate}
use picomesh.Frame.{DecodeError, DecodeResult, is_ok, default_frame, decode_frame}
use picomesh.Frame.Accepted.{IsCanonical, decode_frame_iff}

refused-default :
    (bytes : List ℕ) (count : ℕ)
    → is_ok (decode_frame (some bytes) count) ≡ false
    → (decode_frame (some bytes) count).frame ≡ default_frame
unfolding decode_frame is_ok
refused-default bytes count refused = ground (arith, refused)

pub is_ok-error :
    (r : DecodeResult) → is_ok r ≡ true → r ≡ record { frame = r.frame; error = DecodeError.none }
unfolding is_ok
is_ok-error r ok = ground (arith, ok)

pub default_frame-IsCanonical : IsCanonical default_frame
default_frame-IsCanonical = record {
  frame = record {
    type_byte = omega arith;
    flags_byte = omega arith;
    node_byte = omega arith;
    sequence_byte = omega arith;
    length_byte = omega arith;
    payload_size = refl;
    payload_bytes = AllBytes-replicate 32;
  };
  canonical = refl;
}

-- Whatever bytes the strict decoder is given, with a length within the buffer, and whether or not
-- it accepts them, the fields of the frame that it returns fit their C++ types, its payload
-- length is at most 32 and its payload bytes behind that length are zero.
pub decode_frame-IsCanonical :
    (bytes : List ℕ) (count : ℕ)
    → AllBytes bytes
    → count ≤ length bytes
    → IsCanonical (decode_frame (some bytes) count).frame
decode_frame-IsCanonical bytes count all fits =
    elim (Bool-cases (is_ok (decode_frame (some bytes) count))) [
      | inl ok ↦
          ((decode_frame_iff bytes count (decode_frame (some bytes) count).frame all fits).0
            (is_ok-error (decode_frame (some bytes) count) ok)).0
      | inr refused ↦
          subst IsCanonical (sym (refused-default bytes count refused)) default_frame-IsCanonical
    ]
