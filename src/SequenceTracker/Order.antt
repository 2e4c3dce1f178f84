-- ===== src/SequenceTracker/Order.antt =====
-- The order of sequences round the wrap.
use picomesh.Base.{
  ℕ, zero, suc, ◌+◌, ◌-◌, ◌%◌, ◌≤◌, ◌<◌, ◌≡◌, ◌↔◌, refl, ap₂, ◌⊎◌, ◌&&◌, Option-cases, List, [],
  ◌∷◌, some, arith,
}
use picomesh.Base.{replicate, ltb, ◌==◌, if◌then◌else◌}
use picomesh.NodeRegistry.{max_nodes}
use picomesh.SequenceTracker.{
  SequenceState, first, newer, duplicate, stale, invalid_node, SequenceTracker, IsValid, observe,
}
use picomesh.SequenceTracker.View.{last, judge, remember, observe_lem, observe-IsValid}

-- `b` is `d` steps after `a`, modulo 256.
abbrev pub After : ℕ → ℕ → ℕ → Type 0
After d a b = b ≡ (a + d) % 256

distance : ℕ → ℕ → ℕ
distance l s = (s + 256 - l) % 256

judge-newer_iff :
    (l s : ℕ)
    → l < 256
    → s < 256
    → (judge (some l) s ≡ newer) ↔ ((d : ℕ) × (1 ≤ d) × (d ≤ 127) × After d l s)
unfolding distance
judge-newer_iff l s hl hs = (
  λ e. (distance l s, ground arith, ground arith, omega arith),
  λ h. let (d, lo, hi, e) = h in ground arith,
)

judge-stale_iff :
    (l s : ℕ)
    → l < 256
    → s < 256
    → (judge (some l) s ≡ stale) ↔ ((d : ℕ) × (128 ≤ d) × (d ≤ 255) × After d l s)
unfolding distance
judge-stale_iff l s hl hs = (
  λ e. (distance l s, ground arith, ground arith, omega arith),
  λ h. let (d, lo, hi, e) = h in ground arith,
)

judge-duplicate_iff : (l s : ℕ) → l < 256 → s < 256 → (judge (some l) s ≡ duplicate) ↔ (s ≡ l)
judge-duplicate_iff l s hl hs = ground arith

module _ (t : SequenceTracker) (n l s : ℕ) (v : IsValid t) (known : n < max_nodes)
    (remembered : last t n ≡ some l) (l_byte : l < 256) (s_byte : s < 256) where
  judged : (observe t n s).1 ≡ judge (some l) s
  judged = ground (arith, observe_lem t n s n v)

  -- For a node that has been heard, with the sequence remembered for it: a new sequence byte is
  -- newer exactly if it is 1 to 127 steps ahead modulo 256, stale exactly if it is 128 to 255
  -- steps ahead, and a duplicate exactly if it is the same.
  pub observe_iff :
      (((observe t n s).1 ≡ newer) ↔ ((d : ℕ) × (1 ≤ d) × (d ≤ 127) × After d l s))
      × (((observe t n s).1 ≡ stale) ↔ ((d : ℕ) × (128 ≤ d) × (d ≤ 255) × After d l s))
      × (((observe t n s).1 ≡ duplicate) ↔ (s ≡ l))
  observe_iff = rw judged (
    judge-newer_iff l s l_byte s_byte,
    judge-stale_iff l s l_byte s_byte,
    judge-duplicate_iff l s l_byte s_byte,
  )

-- Once a sequence byte has been accepted from a node in range, it is a duplicate when it comes
-- again, and each of the 128 before it is stale.
pub observe-observe :
    (t : SequenceTracker) (n s d : ℕ)
    → IsValid t
    → n < max_nodes
    → s < 256
    → d ≤ 128
    → ((observe t n s).1 ≡ first) ⊎ ((observe t n s).1 ≡ newer)
    → (observe (observe t n s).0 n ((s + 256 - d) % 256)).1 ≡ (if d == 0 then duplicate else stale)
observe-observe t n s d v known hs hd taken = ground (
  arith,
  observe_lem t n s n v,
  observe_lem (observe t n s).0 n ((s + 256 - d) % 256) n (observe-IsValid n s v),
  Option-cases (last t n),
)

-- The results of one node's observations in turn.
abbrev pub observe_all : SequenceTracker → ℕ → List ℕ → List SequenceState
observe_all t n [] = []
observe_all t n (s ∷ ss) = (observe t n s).1 ∷ observe_all (observe t n s).0 n ss

-- What a sender's 8-bit counter gives next.
abbrev pub counting : ℕ → ℕ → List ℕ
counting zero s = []
counting (suc k) s = ((s + 1) % 256) ∷ counting k ((s + 1) % 256)

-- From a node in range whose last sequence is remembered, a sender that counts on from there is
-- judged newer at each of any number of frames, however often the sequence wraps.
pub observe_all-counting :
    (k : ℕ) (t : SequenceTracker) (n l : ℕ)
    → IsValid t
    → n < max_nodes
    → l < 256
    → last t n ≡ some l
    → observe_all t n (counting k l) ≡ replicate k newer
observe_all-counting zero t n l v known hl e = refl
observe_all-counting (suc k) t n l v known hl e = ap₂ ◌∷◌ (ground (arith, one)) (
    observe_all-counting k (observe t n s).0 n s (observe-IsValid n s v) known (omega arith)
      (ground (arith, one)))
  where
    s : ℕ
    s = (l + 1) % 256

    one :
        ((observe t n s).1 ≡ (if ltb n max_nodes then judge (last t n) s else invalid_node))
        × (last (observe t n s).0 n
            ≡ (if ltb n max_nodes && (n == n) then remember (last t n) s else last t n))
    one = observe_lem t n s n v
