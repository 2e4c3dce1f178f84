-- ===== src/StreamDecoder/Invariant.antt =====
-- The invariant of a stream decoder, and what every result of `feed` can be.
use picomesh.Base.{ℕ, ◌<◌, ◌≡◌, ◌≢◌, inl, inr, refl, ◌∙◌, arith}
use picomesh.Base.{
  length, get_or, set, AllBytes, AllBytes-set, length-set, get_or-set_self, get_or-set_ne,
  Bool-cases, ◌==◌,
}
use picomesh.Frame.{
  DecodeError, unsupported_version, payload_too_large, frame_magic, max_encoded_frame_size,
}
use picomesh.StreamDecoder.{StreamDecoder, StreamResult, reset, fail, feed}
use picomesh.StreamDecoder.Step.{
  IsValid, Fed, noise, start, wrong_version, header_byte, too_large, length_byte, payload_byte,
  last_byte, stored, feed-Fed,
}

reset-IsValid :
    (d : StreamDecoder)
    → length d.buffer ≡ max_encoded_frame_size
    → AllBytes d.buffer
    → IsValid (reset d)
unfolding reset
reset-IsValid d h hb = record {
  storage = h;
  bytes = hb;
  magic = inl refl;
  version = inl (omega arith);
  header = inl (omega arith, refl);
}

fail-IsValid :
    (d : StreamDecoder) (e : DecodeError) (b : ℕ)
    → length d.buffer ≡ max_encoded_frame_size
    → AllBytes d.buffer
    → b < 256
    → IsValid (fail d e b).0
unfolding fail
fail-IsValid d e b h hb lt = elim (Bool-cases (b == frame_magic)) [
  | inl m ↦ rw m (record {
    storage = length-set d.buffer 0 b ∙ h;
    bytes = AllBytes-set d.buffer 0 b hb lt;
    magic = inr (ground (arith, get_or-set_self d.buffer 0 b 0));
    version = inl (omega arith);
    header = inl (omega arith, refl);
  })
  | inr m ↦ rw m (reset-IsValid d h hb)
]

module _ {d : StreamDecoder} (b : ℕ) (lt : b < 256) (v : IsValid d) where
  abbrev kept_length : length (set d.buffer d.size b) ≡ max_encoded_frame_size
  kept_length = length-set d.buffer d.size b ∙ v.storage

  abbrev kept_bytes : AllBytes (set d.buffer d.size b)
  kept_bytes = AllBytes-set d.buffer d.size b v.bytes lt

  newest : d.size < max_encoded_frame_size → get_or (set d.buffer d.size b) d.size 0 ≡ b
  newest h = get_or-set_self d.buffer d.size b 0 (omega (arith, v.storage))

  kept : (i : ℕ) → d.size ≢ i → get_or (set d.buffer d.size b) i 0 ≡ get_or d.buffer i 0
  kept i ne = get_or-set_ne d.buffer d.size i b 0 ne

  pub Fed-IsValid : {out : StreamDecoder × StreamResult} → Fed d b out → IsValid out.0
  Fed-IsValid (noise e n) = v
  Fed-IsValid (start e m) = record {
    storage = kept_length;
    bytes = kept_bytes;
    magic = inr (ground (arith, newest));
    version = inl (omega arith);
    header = inl (omega arith, ground arith);
  }
  Fed-IsValid (wrong_version e n) =
      fail-IsValid (stored d b) unsupported_version b kept_length kept_bytes lt
  Fed-IsValid (header_byte lo hi ok) = record {
    storage = kept_length;
    bytes = kept_bytes;
    magic = inr (ground (arith, kept 0));
    version = ground (arith, newest, kept 1);
    header = inl (omega arith, ground arith);
  }
  Fed-IsValid (too_large e h) =
      fail-IsValid (stored d b) payload_too_large b kept_length kept_bytes lt
  Fed-IsValid (length_byte e h) = record {
    storage = kept_length;
    bytes = kept_bytes;
    magic = inr (ground (arith, kept 0));
    version = inr (ground (arith, kept 1));
    header =
        inr (omega arith, ground (arith, newest), ground (arith, newest), ground (arith, newest));
  }
  Fed-IsValid (payload_byte lo hi) = record {
    storage = kept_length;
    bytes = kept_bytes;
    magic = inr (ground (arith, kept 0));
    version = inr (ground (arith, kept 1));
    header = ground (arith, kept 6);
  }
  Fed-IsValid (last_byte lo hi) = reset-IsValid (stored d b) kept_length kept_bytes

  -- Every byte keeps the invariant.
  pub feed-IsValid : IsValid (feed d b).0
  feed-IsValid = Fed-IsValid (feed-Fed b v)
