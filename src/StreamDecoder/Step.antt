-- ===== src/StreamDecoder/Step.antt =====
-- The branches of `feed` that a decoder can take between two bytes, as a step relation.
use picomesh.Base.{ℕ, ◌+◌, ◌≤◌, ◌<◌, ◌≡◌, ◌≢◌, ◌⊎◌, inl, inr, refl, sym, subst, arith, some}
use picomesh.Base.{length, get_or, set, AllBytes, AllBytes-replicate, get_or-set_self}
use native.Mathlib.Decide.{ℕ_discrete, dec_lt}
use picomesh.Frame.{
  bad_magic, unsupported_version, payload_too_large, decode_frame, default_frame, frame_magic,
  protocol_version, max_payload_size, max_encoded_frame_size,
}
use picomesh.StreamDecoder.{
  StreamDecoder, StreamResult, discarded, new_decoder, reset, fail, decoded_result, feed, pending,
}

-- The candidate is a proper prefix of a frame: its header is right as far as it goes, and the
-- expected length is set exactly when the header is complete, and is not yet reached.
pub record IsValid (d : StreamDecoder) : Type 0 where
  pub storage : length d.buffer ≡ max_encoded_frame_size
  pub bytes : AllBytes d.buffer
  pub magic : (d.size ≡ 0) ⊎ (get_or d.buffer 0 0 ≡ frame_magic)
  pub version : (d.size ≤ 1) ⊎ (get_or d.buffer 1 0 ≡ protocol_version)
  pub header :
      ((d.size ≤ 6) × (d.expected_length ≡ 0))
      ⊎ ((7 ≤ d.size)
          × (get_or d.buffer 6 0 ≤ max_payload_size)
          × (d.expected_length ≡ 8 + get_or d.buffer 6 0)
          × (d.size < d.expected_length))

pub new_decoder-IsValid : IsValid new_decoder
new_decoder-IsValid = record {
  storage = refl;
  bytes = AllBytes-replicate 40;
  magic = inl refl;
  version = inl (omega arith);
  header = inl (omega arith, refl);
}

-- The decoder with one more byte stored.
abbrev pub stored : StreamDecoder → ℕ → StreamDecoder
stored d b = record d { buffer = set d.buffer d.size b; size = d.size + 1 }

abbrev pub discarded_result : StreamResult
discarded_result = record { status = discarded; frame = default_frame; error = bad_magic }

pub data Fed (d : StreamDecoder) (b : ℕ) : StreamDecoder × StreamResult → Type 0 where
  noise : d.size ≡ 0 → b ≢ frame_magic → Fed d b (d, discarded_result)
  start : d.size ≡ 0 → b ≡ frame_magic → Fed d b (stored d b, pending)
  wrong_version :
      d.size ≡ 1 → b ≢ protocol_version → Fed d b (fail (stored d b) unsupported_version b)
  header_byte :
      1 ≤ d.size
      → d.size ≤ 5
      → (d.size ≢ 1) ⊎ (b ≡ protocol_version)
      → Fed d b (stored d b, pending)
  too_large : d.size ≡ 6 → max_payload_size < b → Fed d b (fail (stored d b) payload_too_large b)
  length_byte :
      d.size ≡ 6
      → b ≤ max_payload_size
      → Fed d b (record (stored d b) { expected_length = 8 + b }, pending)
  payload_byte : 7 ≤ d.size → d.size + 1 < d.expected_length → Fed d b (stored d b, pending)
  last_byte :
      7 ≤ d.size
      → d.size + 1 ≡ d.expected_length
      → Fed d b (
        reset (stored d b),
        decoded_result (decode_frame (some (stored d b).buffer) (d.size + 1)),
      )

module _ {d : StreamDecoder} (b : ℕ) (v : IsValid d) where
  pub feed-start : d.size ≡ 0 → b ≡ frame_magic → feed d b ≡ (stored d b, pending)
  unfolding feed
  feed-start e m = ground arith

  pub feed-wrong_version :
      d.size ≡ 1 → b ≢ protocol_version → feed d b ≡ fail (stored d b) unsupported_version b
  unfolding feed
  feed-wrong_version e ne = ground (arith, get_or-set_self d.buffer 1 b 0)

  pub feed-header_byte :
      1 ≤ d.size
      → d.size ≤ 5
      → (d.size ≢ 1) ⊎ (b ≡ protocol_version)
      → feed d b ≡ (stored d b, pending)
  unfolding feed
  feed-header_byte lo hi ok = ground (arith, get_or-set_self d.buffer d.size b 0)

  pub feed-noise : d.size ≡ 0 → b ≢ frame_magic → feed d b ≡ (d, discarded_result)
  unfolding feed
  feed-noise e ne = ground arith

  pub feed-too_large :
      d.size ≡ 6 → max_payload_size < b → feed d b ≡ fail (stored d b) payload_too_large b
  unfolding feed
  feed-too_large e h = ground (arith, get_or-set_self d.buffer d.size b 0, v)

  feed-length_byte :
      d.size ≡ 6
      → b ≤ max_payload_size
      → feed d b ≡ (record (stored d b) { expected_length = 8 + b }, pending)
  unfolding feed
  feed-length_byte e h = ground (arith, get_or-set_self d.buffer d.size b 0)

  feed-payload_byte : 7 ≤ d.size → d.size + 1 < d.expected_length → feed d b ≡ (stored d b, pending)
  unfolding feed
  feed-payload_byte lo hi = ground arith

  pub feed-last_byte :
      7 ≤ d.size
      → d.size + 1 ≡ d.expected_length
      → feed d b ≡ (
        reset (stored d b),
        decoded_result (decode_frame (some (stored d b).buffer) (d.size + 1)),
      )
  unfolding feed reset
  feed-last_byte lo hi = ground arith

  empty-Fed : d.size ≡ 0 → Fed d b (feed d b)
  empty-Fed e = elim (ℕ_discrete b frame_magic) [
    | yes m ↦ subst (Fed d b) (sym (feed-start e m)) (start e m)
    | no ne ↦ subst (Fed d b) (sym (feed-noise e ne)) (noise e ne)
  ]

  header-Fed : 1 ≤ d.size → d.size ≤ 5 → Fed d b (feed d b)
  header-Fed lo hi = elim (ℕ_discrete d.size 1) [
    | yes one ↦ elim (ℕ_discrete b protocol_version) [
      | yes p ↦ subst (Fed d b) (sym (feed-header_byte lo hi (inr p))) (header_byte lo hi (inr p))
      | no ne ↦ subst (Fed d b) (sym (feed-wrong_version one ne)) (wrong_version one ne)
    ]
    | no more ↦
        subst (Fed d b) (sym (feed-header_byte lo hi (inl more))) (header_byte lo hi (inl more))
  ]

  length-Fed : d.size ≡ 6 → Fed d b (feed d b)
  length-Fed e = elim (dec_lt max_payload_size b) [
    | yes h ↦ subst (Fed d b) (sym (feed-too_large e h)) (too_large e h)
    | no h ↦
        let small : b ≤ max_payload_size = omega arith in
        subst (Fed d b) (sym (feed-length_byte e small)) (length_byte e small)
  ]

  payload-Fed : 7 ≤ d.size → d.size < d.expected_length → Fed d b (feed d b)
  payload-Fed lo lt = elim (ℕ_discrete (d.size + 1) d.expected_length) [
    | yes e ↦ subst (Fed d b) (sym (feed-last_byte lo e)) (last_byte lo e)
    | no ne ↦
        let more : d.size + 1 < d.expected_length = omega arith in
        subst (Fed d b) (sym (feed-payload_byte lo more)) (payload_byte lo more)
  ]

  -- `feed` takes one of these branches: the guard on a full buffer never does.
  pub feed-Fed : Fed d b (feed d b)
  feed-Fed = elim v.header [
    | inl h ↦ elim (ℕ_discrete d.size 0) [
      | yes e ↦ empty-Fed e
      | no n ↦ elim (ℕ_discrete d.size 6) [
        | yes e ↦ length-Fed e
        | no m ↦ header-Fed (omega arith) (omega arith)
      ]
    ]
    | inr h ↦ payload-Fed h.0 h.3
  ]
