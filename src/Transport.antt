-- ===== src/Transport.antt =====
-- include/picomesh/transport.h: the byte transport interface.
use picomesh.Base.{ℕ, ◌≤◌, ◌≡◌, List, ◌++◌, Bool, some, Pointer, length, drop}

-- The two virtual methods. `receive` gets the caller's buffer and gives it back with its result.
pub record Transport : Type 1 where
  pub State : Type 0
  pub send : State → Pointer → ℕ → State × Bool
  pub receive : State → Pointer → ℕ → State × Pointer × ℕ

-- Only the beginning of the buffer is written, up to the capacity.
abbrev pub WritesWithin : List ℕ → ℕ → Pointer → Type 0
WritesWithin buffer capacity out =
    (written : List ℕ) × (length written ≤ capacity)
    × (out ≡ some (written ++ drop (length written) buffer))

-- "Implementations must not write beyond the supplied receive capacity."
pub record IsBounded (T : Transport) : Type 0 where
  pub writes_within :
      (s : T.State) (buffer : List ℕ) (capacity : ℕ)
      → capacity ≤ length buffer
      → WritesWithin buffer capacity (T.receive s (some buffer) capacity).1
  pub returns_within :
      (s : T.State) (buffer : List ℕ) (capacity : ℕ)
      → capacity ≤ length buffer
      → (T.receive s (some buffer) capacity).2 ≤ capacity
