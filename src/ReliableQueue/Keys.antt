-- ===== src/ReliableQueue/Keys.antt =====
-- The slots as a map from node id and sequence to what is pending.
use picomesh.Base.{
  ℕ, ◌+◌, ◌≤◌, ◌<◌, ◌≡◌, ◌⊎◌, inl, refl, List, [], ◌∷◌, Bool, true, false, ◌&&◌, Option, arith,
}
use picomesh.Base.{length, ◌==◌, if◌then◌else◌, Bool-cases, Option-cases}
use picomesh.Frame.{Frame}
use picomesh.ReliableQueue.{
  Slot, QueueResult, queued, full, matches, has_pending, filled, fill_slot, free_slot, count_active,
}

-- The pending slot of a key.
abbrev pub find_slot : List Slot → ℕ → ℕ → Option Slot
find_slot [] n s = Option.none
find_slot (x ∷ xs) n s = if matches x n s then Option.some x else find_slot xs n s

-- No two active slots have one key.
abbrev pub Unique : List Slot → Type 0
Unique [] = Unit
Unique (x ∷ xs) =
    ((x.active ≡ false) ⊎ (has_pending xs x.frame.node_id x.frame.sequence ≡ false)) × Unique xs

abbrev pub is_some : Option Slot → Bool
is_some Option.none = false
is_some (Option.some x) = true

pub has_pending-find_slot :
    (xs : List Slot) (n s : ℕ) → has_pending xs n s ≡ is_some (find_slot xs n s)
unfolding has_pending
has_pending-find_slot [] n s = refl
has_pending-find_slot (x ∷ xs) n s = ground (arith, has_pending-find_slot xs n s)

pub count_active-le : (xs : List Slot) → count_active xs ≤ length xs
unfolding count_active
count_active-le [] = omega arith
count_active-le (x ∷ xs) = ground (arith, count_active-le xs)

-- What filling a slot does to a list of slots.
abbrev pub Fills : List Slot → List Slot × QueueResult → Type 0
Fills xs out =
    ((out.1 ≡ full) × (out.0 ≡ xs) × (count_active xs ≡ length xs))
    ⊎ ((out.1 ≡ queued)
        × (count_active out.0 ≡ count_active xs + 1)
        × (count_active xs < length xs))

pub fill_slot-Fills : (xs : List Slot) (f : Frame) (now : ℕ) → Fills xs (fill_slot xs f now)
unfolding fill_slot count_active
fill_slot-Fills [] f now = ground arith
fill_slot-Fills (x ∷ xs) f now = ground (arith, fill_slot-Fills xs f now, count_active-le xs)

pub length-fill_slot :
    (xs : List Slot) (f : Frame) (now : ℕ) → length (fill_slot xs f now).0 ≡ length xs
unfolding fill_slot
length-fill_slot [] f now = refl
length-fill_slot (x ∷ xs) f now = ground (arith, length-fill_slot xs f now)

-- The new slot is found under its key, and every other key finds what it found.
pub find_slot-fill_slot :
    (xs : List Slot) (f : Frame) (now n s : ℕ)
    → has_pending xs f.node_id f.sequence ≡ false
    → (fill_slot xs f now).1 ≡ queued
    → find_slot (fill_slot xs f now).0 n s ≡ (
        if (f.node_id == n) && (f.sequence == s)
        then Option.some (filled f now)
        else find_slot xs n s)
unfolding fill_slot has_pending
find_slot-fill_slot [] f now n s free e = ground arith
find_slot-fill_slot (x ∷ xs) f now n s free e = ground (arith, find_slot-fill_slot xs f now n s)

has_pending-fill_slot :
    (xs : List Slot) (f : Frame) (now n s : ℕ)
    → has_pending (fill_slot xs f now).0 n s ≡ true
    → (has_pending xs n s ≡ true) ⊎ ((f.node_id ≡ n) × (f.sequence ≡ s))
unfolding fill_slot has_pending
has_pending-fill_slot [] f now n s e = inl e
has_pending-fill_slot (x ∷ xs) f now n s e = ground (arith, has_pending-fill_slot xs f now n s)

pub fill_slot-Unique :
    (xs : List Slot) (f : Frame) (now : ℕ)
    → has_pending xs f.node_id f.sequence ≡ false
    → Unique xs
    → Unique (fill_slot xs f now).0
unfolding fill_slot has_pending
fill_slot-Unique [] f now free u = tt
fill_slot-Unique (x ∷ xs) f now free u = ground (
  arith,
  fill_slot-Unique xs f now,
  has_pending-fill_slot xs f now x.frame.node_id x.frame.sequence,
  Bool-cases (has_pending (fill_slot xs f now).0 x.frame.node_id x.frame.sequence),
)

pub length-free_slot : (xs : List Slot) (n s : ℕ) → length (free_slot xs n s).0 ≡ length xs
unfolding free_slot
length-free_slot [] n s = refl
length-free_slot (x ∷ xs) n s = ground (arith, length-free_slot xs n s)

-- A key is freed exactly when it is pending.
pub free_slot-has_pending : (xs : List Slot) (n s : ℕ) → (free_slot xs n s).1 ≡ has_pending xs n s
unfolding free_slot has_pending
free_slot-has_pending [] n s = refl
free_slot-has_pending (x ∷ xs) n s = ground (arith, free_slot-has_pending xs n s)

pub count_active-free_slot :
    (xs : List Slot) (n s : ℕ)
    → count_active (free_slot xs n s).0 + (if has_pending xs n s then 1 else 0) ≡ count_active xs
unfolding free_slot has_pending count_active
count_active-free_slot [] n s = omega arith
count_active-free_slot (x ∷ xs) n s = ground (arith, count_active-free_slot xs n s)

has_pending-free_slot :
    (xs : List Slot) (n s m r : ℕ)
    → has_pending xs m r ≡ false
    → has_pending (free_slot xs n s).0 m r ≡ false
unfolding free_slot has_pending
has_pending-free_slot [] n s m r e = refl
has_pending-free_slot (x ∷ xs) n s m r e = ground (arith, has_pending-free_slot xs n s m r)

pub free_slot-Unique : (xs : List Slot) (n s : ℕ) → Unique xs → Unique (free_slot xs n s).0
unfolding free_slot
free_slot-Unique [] n s u = tt
free_slot-Unique (x ∷ xs) n s u = ground (
  arith,
  free_slot-Unique xs n s u.1,
  has_pending-free_slot xs n s x.frame.node_id x.frame.sequence,
)

-- The freed key finds nothing any more, every other key what it found.
pub find_slot-free_slot :
    (xs : List Slot) (n s m r : ℕ)
    → Unique xs
    → find_slot (free_slot xs n s).0 m r
      ≡ (if (m == n) && (r == s) then Option.none else find_slot xs m r)
unfolding free_slot has_pending
find_slot-free_slot [] n s m r u = ground arith
find_slot-free_slot (x ∷ xs) n s m r u = ground (
  arith,
  find_slot-free_slot xs n s m r u.1,
  has_pending-find_slot xs n s,
  Option-cases (find_slot xs n s),
)
