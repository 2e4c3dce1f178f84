-- ===== src/StreamDecoder/Segments.antt =====
-- Whatever is fed, the delivered frames stand in the stream, one behind the other.
use picomesh.Base.{
  ℕ, ◌+◌, ◌<◌, ◌≡◌, ◌≢◌, ◌⊎◌, inl, inr, refl, sym, ◌∙◌, ap, subst, List, [], ◌∷◌, ◌++◌, append-nil,
  append_assoc, arith, Bool-cases, ◌==◌,
}
use picomesh.Base.{length, set, take, AllBytes, length-set, take-suc-set}
use native.Mathlib.Numerals.{add-one}
use picomesh.Frame.{Frame, DecodeError, frame_magic}
use picomesh.Frame.Wire.{wire}
use picomesh.Frame.Accepted.{IsCanonical}
use picomesh.StreamDecoder.{
  StreamDecoder, StreamResult, StreamStatus, need_more, frame_ready, frame_error, discarded,
  new_decoder, reset, fail, feed, feed_all,
}
use picomesh.StreamDecoder.Step.{
  IsValid, Fed, noise, start, wrong_version, header_byte, too_large, length_byte, payload_byte,
  last_byte, stored, feed-Fed, new_decoder-IsValid,
}
use picomesh.StreamDecoder.Invariant.{feed-IsValid}
use picomesh.StreamDecoder.Stream.{feed-IsDelivery}
use picomesh.StreamDecoder.Recovery.{frames_of}

-- The wire formats of these frames, canonical ones, follow one another in the bytes, with any
-- bytes before, between and behind them.
pub data Segments : List ℕ → List Frame → Type 0 where
  over : {bs : List ℕ} → Segments bs []
  frame_at :
      {bs : List ℕ} (gap rest : List ℕ) (f : Frame) (fs : List Frame)
      → bs ≡ gap ++ (wire f ++ rest)
      → IsCanonical f
      → Segments rest fs
      → Segments bs (f ∷ fs)

Segments-append :
    (more : List ℕ) {bs : List ℕ} {fs : List Frame} → Segments bs fs → Segments (more ++ bs) fs
Segments-append more over = over
Segments-append more (frame_at gap rest f fs e c s) =
    frame_at (more ++ gap) rest f fs
      (ap (λ xs. more ++ xs) e ∙ sym (append_assoc more gap (wire f ++ rest))) c s

abbrev held : StreamDecoder → List ℕ
held d = take d.size d.buffer

-- A byte that completes nothing: what is held then is the end of what was held and the byte.
abbrev Ends : StreamDecoder → ℕ → StreamDecoder → Type 0
Ends d b d' = (gone : List ℕ) × (held d ++ b ∷ [] ≡ gone ++ held d')

module _ {d : StreamDecoder} (b : ℕ) (v : IsValid d) where
  held-stored : take (d.size + 1) (set d.buffer d.size b) ≡ held d ++ b ∷ []
  held-stored = rw add-one (take-suc-set d.buffer d.size b (omega (arith, v.storage, v.header)))

  emptied : (d' : StreamDecoder) → d'.size ≡ 0 → Ends d b d'
  emptied d' e = (
    held d ++ b ∷ [],
    sym (append-nil (held d ++ b ∷ [])) ∙ ap (λ n. (held d ++ b ∷ []) ++ take n d'.buffer) (sym e),
  )

  fail-Ends : (error : DecodeError) → Ends d b (fail (stored d b) error b).0
  unfolding fail reset
  fail-Ends error =
      let room : 0 < length (set d.buffer d.size b) =
        omega (arith, length-set d.buffer d.size b, v.storage) in
      elim (Bool-cases (b == frame_magic)) [
        | inl m ↦
            rw m (
              held d,
              sym (ap (λ xs. held d ++ xs) (take-suc-set (set d.buffer d.size b) 0 b room)),
            )
        | inr m ↦ rw m (emptied (reset (stored d b)) refl)
      ]

  Fed-Ends :
      {out : StreamDecoder × StreamResult}
      → Fed d b out
      → out.1.status ≢ frame_ready
      → Ends d b out.0
  unfolding reset
  Fed-Ends (noise e n) r = emptied d e
  Fed-Ends (start e m) r = ([], sym held-stored)
  Fed-Ends (wrong_version e n) r = fail-Ends _
  Fed-Ends (header_byte lo hi ok) r = ([], sym held-stored)
  Fed-Ends (too_large e h) r = fail-Ends _
  Fed-Ends (length_byte e h) r = ([], sym held-stored)
  Fed-Ends (payload_byte lo hi) r = ([], sym held-stored)
  Fed-Ends (last_byte lo hi) r = emptied (reset (stored d b)) refl

status-cases : (s : StreamStatus) → (s ≡ frame_ready) ⊎ (s ≢ frame_ready)
status-cases frame_ready = inl refl
status-cases need_more = inr (λ e. cc)
status-cases frame_error = inr (λ e. cc)
status-cases discarded = inr (λ e. cc)

frames_of-ready :
    (r : StreamResult) (rs : List StreamResult)
    → r.status ≡ frame_ready
    → frames_of (r ∷ rs) ≡ r.frame ∷ frames_of rs
frames_of-ready r rs e = ground (arith, e)

frames_of-other :
    (r : StreamResult) (rs : List StreamResult)
    → r.status ≢ frame_ready
    → frames_of (r ∷ rs) ≡ frames_of rs
frames_of-other r rs ne = ground (arith, ne)

held-Segments :
    (bs : List ℕ) {d : StreamDecoder}
    → IsValid d
    → AllBytes bs
    → Segments (held d ++ bs) (frames_of (feed_all d bs).1)
unfolding feed_all
held-Segments [] v all = over
held-Segments (b ∷ bs) {d} v all =
    let later = held-Segments bs (feed-IsValid b all.0 v) all.1 in
    let r = (feed d b).1 in
    let rs = (feed_all (feed d b).0 bs).1 in
    elim (status-cases r.status) [
      | inl ready ↦
          let found = feed-IsDelivery v all.0 ready in
          subst (Segments (held d ++ b ∷ bs)) (sym (frames_of-ready r rs ready)) (
            frame_at [] bs r.frame (frames_of rs)
              (sym (append_assoc (held d) (b ∷ []) bs) ∙ ap (λ xs. xs ++ bs) found.1) found.0
              (subst (λ n. Segments (take n (feed d b).0.buffer ++ bs) (frames_of rs)) found.2
                later))
      | inr other ↦
          let kept = Fed-Ends b v (feed-Fed b v) other in
          subst (Segments (held d ++ b ∷ bs)) (sym (frames_of-other r rs other)) (
            subst (λ xs. Segments xs (frames_of rs))
              (sym (append_assoc kept.0 (held (feed d b).0) bs)
                ∙ ap (λ xs. xs ++ bs) (sym kept.1)
                ∙ append_assoc (held d) (b ∷ []) bs)
              (Segments-append kept.0 later))
    ]

-- Whatever bytes a new decoder is fed: the frames that it delivers are canonical, and their wire
-- formats follow one another in those bytes, in the order of delivery and without overlap, with
-- any bytes before, between and behind them.
pub feed_all-Segments :
    (bs : List ℕ) → AllBytes bs → Segments bs (frames_of (feed_all new_decoder bs).1)
feed_all-Segments bs all = held-Segments bs new_decoder-IsValid all
