-- ===== src/StreamDecoder/Delivery.antt =====
-- A frame fed byte by byte to a decoder that holds nothing.
use picomesh.Base.{
  ℕ, zero, suc, ◌+◌, ◌-◌, ◌≤◌, ◌<◌, ◌≡◌, ◌≢◌, refl, sym, ◌∙◌, ap, ap₂, subst, List, [], ◌∷◌, ◌++◌,
  arith, some,
}
use picomesh.Base.{
  length, get_or, set, take, drop, replicate, AllBytes-get_or, length-take, get_or-take, take-suc,
  take-append, take-suc-set, get_or-append_self, drop-cons, take-append-drop, take_all, drop_all,
}
use native.Mathlib.Decide.{ℕ_discrete}
use picomesh.Frame.{Frame, IsFrame, DecodeError, decode_frame}
use picomesh.Frame.Wire.{wire, length-wire, wire-AllBytes}
use picomesh.Frame.Decode.{sent, decode_frame-wire}
use picomesh.StreamDecoder.{
  StreamDecoder, StreamResult, frame_ready, frame_error, reset, decoded_result, feed, feed_all,
  pending,
}
use picomesh.StreamDecoder.Step.{
  IsValid, Fed, noise, start, wrong_version, header_byte, too_large, length_byte, payload_byte,
  last_byte, stored, feed-Fed,
}
use picomesh.StreamDecoder.Invariant.{feed-IsValid, Fed-IsValid}

abbrev pub ready : Frame → StreamResult
ready f = record { status = frame_ready; frame = f; error = DecodeError.none }

module _ {f : Frame} (fr : IsFrame f) where
  -- The decoder has taken the first `k` bytes of the frame.
  pub record Held (d : StreamDecoder) (k : ℕ) : Type 0 where
    pub valid : IsValid d
    pub taken : d.size ≡ k
    pub same : take k d.buffer ≡ take k (wire f)

  unfoldable pub byte : ℕ → ℕ
  byte k = get_or (wire f) k 0

  byte-lt : (k : ℕ) → byte k < 256
  unfolding byte
  byte-lt k = AllBytes-get_or (wire f) k (wire-AllBytes fr)

  -- Behind the header the decoder expects the length of this frame.
  pub expects : {d : StreamDecoder} {k : ℕ} → Held d k → 7 ≤ k → d.expected_length ≡ length (wire f)
  expects {d} {k} h lo = omega (
    arith,
    h.taken,
    h.valid.header,
    length-wire fr,
    get_or-take k d.buffer 6 0 (omega arith),
    get_or-take k (wire f) 6 0 (omega arith),
    ap (λ xs. get_or xs 6 0) h.same,
  )

  same-stored :
      {d : StreamDecoder} {k : ℕ}
      → Held d k
      → k < length (wire f)
      → take (suc k) (stored d (byte k)).buffer ≡ take (suc k) (wire f)
  unfolding byte
  same-stored {d} {k} h lt =
      ap (λ j. take (suc k) (set d.buffer j (get_or (wire f) k 0))) h.taken
      ∙ take-suc-set d.buffer k (get_or (wire f) k 0)
          (omega (arith, h.valid.storage, length-wire fr))
      ∙ ap (λ xs. xs ++ get_or (wire f) k 0 ∷ []) h.same
      ∙ sym (take-suc k (wire f) 0 lt)

  held :
      {d : StreamDecoder} {k : ℕ} {out : StreamDecoder × StreamResult}
      → Held d k
      → Fed d (byte k) out
      → out.0.size ≡ d.size + 1
      → take (suc k) out.0.buffer ≡ take (suc k) (wire f)
      → Held out.0 (suc k)
  held {k} h step size same = record {
    valid = Fed-IsValid (byte k) (byte-lt k) h.valid step;
    taken = omega (arith, h.taken);
    same = same;
  }

  -- Short of the last byte the decoder asks for more.
  pub Held-suc :
      {d : StreamDecoder} {k : ℕ} {out : StreamDecoder × StreamResult}
      → Held d k
      → k + 1 < length (wire f)
      → Fed d (byte k) out
      → Held out.0 (suc k) × (out.1 ≡ pending)
  unfolding byte
  Held-suc {k} h lt (noise e ne) = absurd (ne (ap byte (sym h.taken ∙ e)))
  Held-suc {k} h lt (start e m) = (held h (start e m) refl (same-stored h (omega arith)), refl)
  Held-suc {k} h lt (wrong_version e ne) = absurd (ne (ap byte (sym h.taken ∙ e)))
  Held-suc {k} h lt (header_byte lo hi ok) =
      (held h (header_byte lo hi ok) refl (same-stored h (omega arith)), refl)
  Held-suc {k} h lt (too_large e big) = absurd (omega (arith, ap byte (sym h.taken ∙ e)))
  Held-suc {k} h lt (length_byte e small) =
      (held h (length_byte e small) refl (same-stored h (omega arith)), refl)
  Held-suc {k} h lt (payload_byte lo hi) =
      (held h (payload_byte lo hi) refl (same-stored h (omega arith)), refl)
  Held-suc {k} h lt (last_byte lo e) = absurd (omega (arith, h.taken, expects h))

  whole :
      (buffer : List ℕ) (n : ℕ)
      → n ≡ length (wire f)
      → take n buffer ≡ take n (wire f)
      → decode_frame (some buffer) n ≡ record { frame = sent f; error = DecodeError.none }
  whole buffer n e same =
      ap₂ (λ xs (m : ℕ). decode_frame (some xs) m)
        (sym (take-append-drop n buffer)
          ∙ ap (λ xs. xs ++ drop n buffer)
              (same ∙ take_all n (wire f) (let le : length (wire f) ≤ n = omega arith in le)))
        e
      ∙ decode_frame-wire (drop n buffer) fr

  -- With its last byte the frame is delivered, and nothing is held any more.
  Held-last :
      {d : StreamDecoder} {k : ℕ} {out : StreamDecoder × StreamResult}
      → Held d k
      → k + 1 ≡ length (wire f)
      → Fed d (byte k) out
      → (out.0.size ≡ 0) × (out.1 ≡ ready (sent f))
  unfolding byte reset decoded_result
  Held-last {k} h last (noise e ne) = absurd (ne (ap byte (sym h.taken ∙ e)))
  Held-last {k} h last (start e m) = absurd (omega (arith, h.taken, length-wire fr))
  Held-last {k} h last (wrong_version e ne) = absurd (ne (ap byte (sym h.taken ∙ e)))
  Held-last {k} h last (header_byte lo hi ok) = absurd (omega (arith, h.taken, length-wire fr))
  Held-last {k} h last (too_large e big) = absurd (omega (arith, ap byte (sym h.taken ∙ e)))
  Held-last {k} h last (length_byte e small) = absurd (omega (arith, h.taken, length-wire fr))
  Held-last {k} h last (payload_byte lo hi) = absurd (omega (arith, h.taken, expects h))
  Held-last {d} {k} h last (last_byte lo e) = (
    refl,
    ap decoded_result (
        whole (stored d (byte k)).buffer (d.size + 1) (omega (arith, h.taken))
          (rw n_suc (same-stored h (omega arith)))),
  )
    where
      n_suc : d.size + 1 ≡ suc k
      n_suc = omega (arith, h.taken)

  -- The bytes are asked for `left` times and then deliver the frame.
  abbrev Delivers : ℕ → StreamDecoder → List ℕ → Type 0
  Delivers left d bytes =
      IsValid (feed_all d bytes).0
      × ((feed_all d bytes).0.size ≡ 0)
      × ((feed_all d bytes).1 ≡ replicate left pending ++ ready (sent f) ∷ [])

  Delivers-last :
      (k : ℕ) (d : StreamDecoder)
      → k + 1 ≡ length (wire f)
      → Held d k
      → Delivers 0 d (drop k (wire f))
  unfolding feed_all byte
  Delivers-last k d e h =
      subst (Delivers 0 d)
        (sym (
          drop-cons k (wire f) 0 (omega arith)
          ∙ ap (λ xs. byte k ∷ xs) (drop_all (suc k) (wire f) (omega arith))))
        (feed-IsValid (byte k) (byte-lt k) h.valid, last.0, ap (λ r. r ∷ []) last.1)
    where
      last : ((feed d (byte k)).0.size ≡ 0) × ((feed d (byte k)).1 ≡ ready (sent f))
      last = Held-last h (omega arith) (feed-Fed (byte k) h.valid)

  Delivers-suc :
      (left k : ℕ) (d : StreamDecoder)
      → k < length (wire f)
      → (feed d (byte k)).1 ≡ pending
      → Delivers left (feed d (byte k)).0 (drop (suc k) (wire f))
      → Delivers (suc left) d (drop k (wire f))
  unfolding feed_all byte
  Delivers-suc left k d lt now later =
      subst (Delivers (suc left) d) (sym (drop-cons k (wire f) 0 lt))
        (later.0, later.1, ap₂ ◌∷◌ now later.2)

  rest_of_frame :
      (left k : ℕ) (d : StreamDecoder)
      → k + suc left ≡ length (wire f)
      → Held d k
      → Delivers left d (drop k (wire f))
  rest_of_frame zero k d e h = Delivers-last k d (omega arith) h
  rest_of_frame (suc left) k d e h =
      let now = Held-suc h (omega arith) (feed-Fed (byte k) h.valid) in
      Delivers-suc left k d (omega arith) now.1
        (rest_of_frame left (suc k) (feed d (byte k)).0 (omega arith) now.0)

  -- A valid decoder that holds nothing, fed the wire format of a frame whose fields fit their C++
  -- types, asks for more at every byte but the last, delivers the frame at the last, and is valid
  -- and holds nothing again.
  pub feed_all-wire :
      (d : StreamDecoder)
      → IsValid d
      → d.size ≡ 0
      → IsValid (feed_all d (wire f)).0
        × ((feed_all d (wire f)).0.size ≡ 0)
        × ((feed_all d (wire f)).1 ≡ replicate (length (wire f) - 1) pending ++ ready (sent f) ∷ [])
  feed_all-wire d v e =
      rest_of_frame (length (wire f) - 1) 0 d (omega (arith, length-wire fr))
        (record { valid = v; taken = e; same = refl })

  Held-of_prefix :
      (d : StreamDecoder) (b : ℕ)
      → IsValid d
      → d.size < length (wire f)
      → take d.size d.buffer ++ b ∷ [] ≡ take (suc d.size) (wire f)
      → Held d d.size × (b ≡ byte d.size)
  unfolding byte
  Held-of_prefix d b v lt same = (
    record {
      valid = v;
      taken = refl;
      same =
          sym (take-append (take d.size d.buffer) (b ∷ []) d.size size)
          ∙ ap (take d.size) next
          ∙ take-append (take d.size (wire f)) (get_or (wire f) d.size 0 ∷ []) d.size
              (omega (arith, length-take d.size (wire f)));
    },
    sym (get_or-append_self (take d.size d.buffer) b [] d.size 0 size)
        ∙ ap (λ xs. get_or xs d.size 0) next
        ∙ get_or-append_self (take d.size (wire f)) (get_or (wire f) d.size 0) [] d.size 0
            (omega (arith, length-take d.size (wire f))),
  )
    where
      size : d.size ≡ length (take d.size d.buffer)
      size = omega (arith, length-take d.size d.buffer, v.storage, v.header)

      next : take d.size d.buffer ++ b ∷ [] ≡ take d.size (wire f) ++ get_or (wire f) d.size 0 ∷ []
      next = same ∙ take-suc d.size (wire f) 0 lt

  -- If a valid decoder reports an error on a byte while it holds fewer bytes than a given frame
  -- has, the bytes held and that byte are not the beginning of the frame: no frame in progress is
  -- refused.
  pub feed_error-frame :
      (d : StreamDecoder) (b : ℕ)
      → IsValid d
      → (feed d b).1.status ≡ frame_error
      → d.size < length (wire f)
      → take d.size d.buffer ++ b ∷ [] ≢ take (suc d.size) (wire f)
  feed_error-frame d b v bad lt same = elim (ℕ_discrete (d.size + 1) (length (wire f))) [
    | yes e ↦ let out = (Held-last h.0 e step).1 in cc (ap (λ (r : StreamResult). r.status) out)
    | no ne ↦
        let out = (Held-suc h.0 (omega arith) step).1 in
        cc (ap (λ (r : StreamResult). r.status) out)
  ]
    where
      h : Held d d.size × (b ≡ byte d.size)
      h = Held-of_prefix d b v lt same

      step : Fed d (byte d.size) (feed d b)
      step = subst (λ c. Fed d c (feed d b)) h.1 (feed-Fed b v)
