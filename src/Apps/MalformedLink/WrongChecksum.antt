-- ===== src/Apps/MalformedLink/WrongChecksum.antt =====
-- How an idle decoder refuses a frame with another checksum.
use picomesh.Base.{
  ℕ, zero, suc, ◌+◌, ◌-◌, ◌≤◌, ◌<◌, ◌≡◌, ◌≢◌, refl, sym, ◌∙◌, ap, ap₂, subst, [], ◌∷◌, ◌++◌, arith,
  some, append_assoc,
}
use picomesh.Base.{
  length, get_or, set, take, drop, drop-cons, take-suc, take-suc-set, take-append-drop, take_all,
  set-append, length-take,
}
use picomesh.Frame.{Frame, IsFrame, decode_frame, bad_checksum}
use picomesh.Frame.Wire.{wire, length-wire}
use picomesh.Frame.Corruption.{decode_frame-set_last}
use picomesh.StreamDecoder.{
  StreamDecoder, StreamResult, pending, error_result, feed, reset, decoded_result,
}
use picomesh.StreamDecoder.Step.{stored, feed-last_byte, feed-Fed}
use picomesh.StreamDecoder.Invariant.{feed-IsValid}
use picomesh.StreamDecoder.Delivery.{Held, Held-suc, expects, byte}
use picomesh.Apps.MalformedLink.{feed_bytes}
use picomesh.Apps.MalformedLink.Steps.{IsIdle, Ends}

module _ {f : Frame} (fr : IsFrame f) (c : ℕ) (small : c < 256)
    (other : c ≢ get_or (wire f) (length (wire f) - 1) 0) where
  abbrev n : ℕ
  n = length (wire f) - 1

  -- The buffer then holds the frame with the wrong checksum, and what was behind it.
  wrong_frame :
      {d : StreamDecoder}
      → Held fr d n
      → set d.buffer n c ≡ set (wire f ++ drop (suc n) (set d.buffer n c)) n c
  wrong_frame {d} h =
      let rest = drop (suc n) (set d.buffer n c) in
      let long : n < length (wire f) = omega (arith, length-wire fr) in
      let whole : wire f ≡ take n (wire f) ++ get_or (wire f) n 0 ∷ [] =
        sym (take_all (suc n) (wire f) (omega (arith, long))) ∙ take-suc n (wire f) 0 long in
      let before : n ≡ length (take n (wire f)) = omega (arith, long, length-take n (wire f)) in
      sym (take-append-drop (suc n) (set d.buffer n c))
      ∙ ap (λ bs. bs ++ rest)
          (take-suc-set d.buffer n c (omega (arith, h.valid.storage, length-wire fr))
            ∙ ap (λ bs. bs ++ c ∷ []) h.same)
      ∙ append_assoc (take n (wire f)) (c ∷ []) rest
      ∙ sym (
          ap (λ bs. set (bs ++ rest) n c) whole
          ∙ ap (λ bs. set bs n c) (append_assoc (take n (wire f)) (get_or (wire f) n 0 ∷ []) rest)
          ∙ set-append (take n (wire f)) (get_or (wire f) n 0) c rest n before)

  last_wrong :
      {d : StreamDecoder}
      → Held fr d n
      → IsIdle (feed d c).0 × ((feed d c).1 ≡ error_result bad_checksum)
  unfolding decoded_result reset
  last_wrong {d} h = (
    record {
      valid = feed-IsValid c small h.valid;
      empty = ap (λ (p : StreamDecoder × StreamResult). p.0.size) step;
    },
    ap (λ (p : StreamDecoder × StreamResult). p.1) step
        ∙ ap decoded_result (
            ap₂ (λ bs (k : ℕ). decode_frame (some bs) k) buffer size
            ∙ decode_frame-set_last (drop (suc n) (set d.buffer n c)) c fr small other),
  )
    where
      size : d.size + 1 ≡ length (wire f)
      size = omega (arith, h.taken, length-wire fr)

      long : 7 ≤ n
      long = omega (arith, length-wire fr)

      step : feed d c ≡ (
        reset (stored d c),
        decoded_result (decode_frame (some (stored d c).buffer) (d.size + 1)),
      )
      step =
          feed-last_byte c h.valid (omega (arith, h.taken, long)) (size ∙ sym (expects fr h long))

      buffer : set d.buffer d.size c ≡ set (wire f ++ drop (suc n) (set d.buffer n c)) n c
      buffer = ap (λ k. set d.buffer k c) h.taken ∙ wrong_frame h

  -- What the decoder makes of the rest of the frame with the wrong checksum.
  rest_of_wrong :
      (left k : ℕ) {d : StreamDecoder} (r : StreamResult)
      → k + left ≡ n
      → Held fr d k
      → let out = feed_bytes d (take left (drop k (wire f)) ++ c ∷ []) r in
        IsIdle out.0 × (out.1 ≡ error_result bad_checksum)
  unfolding feed_bytes byte
  rest_of_wrong zero k {d} r e h = last_wrong (subst (Held fr d) (omega arith) h)
  rest_of_wrong (suc left) k {d} r e h =
      let next = Held-suc fr h (omega (arith, length-wire fr)) (feed-Fed (byte fr k) h.valid) in
      rw (drop-cons k (wire f) 0 (omega (arith, length-wire fr)))
        (rest_of_wrong left (suc k) (feed d (byte fr k)).1 (omega arith) next.0)

  pub wrong-Ends :
      {d : StreamDecoder}
      → IsIdle d
      → Ends d (take n (wire f) ++ c ∷ []) (error_result bad_checksum)
  wrong-Ends {d} h =
      let out =
        rest_of_wrong n 0 pending (omega arith)
          (record { valid = h.valid; taken = h.empty; same = refl }) in
      record { idle = out.0; last = out.1 }
