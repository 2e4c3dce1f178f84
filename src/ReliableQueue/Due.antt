-- ===== src/ReliableQueue/Due.antt =====
-- What `next_due` decides, and which slot it decides about.
use picomesh.Base.{
  ℕ, ◌+◌, ◌≤◌, ◌<◌, ◌≡◌, ◌⊎◌, inl, inr, refl, sym, subst, List, [], ◌∷◌, true, false, ◌&&◌, Option,
  arith,
}
use picomesh.Base.{length, u8, u32, ◌==◌, if◌then◌else◌, Bool-cases, Option-cases}
use native.Mathlib.Decide.{dec_lt}
use picomesh.ReliableQueue.{
  Slot, RetryPolicy, TxDecision, send, exhausted, no_decision, matches, has_pending, due_slot,
  deadline_reached,
}
use picomesh.ReliableQueue.Keys.{find_slot, Unique, has_pending-find_slot}

abbrev pub NothingDue : ℕ → List Slot → Type 0
NothingDue now [] = Unit
NothingDue now (x ∷ xs) =
    ((x.active ≡ false) ⊎ (deadline_reached now x.deadline_ms ≡ false)) × NothingDue now xs

-- The slot after it has been sent once more.
abbrev pub sent_again : RetryPolicy → ℕ → Slot → Slot
sent_again p now x = record x {
  attempts = u8 (x.attempts + 1);
  deadline_ms = u32 (now + p.timeout_ms);
}

-- The pending slots after the one of key `x` has become `o`.
abbrev pub Updates : Slot → Option Slot → List Slot → List Slot → Type 0
Updates x o xs ys =
    (n s : ℕ)
    → find_slot ys n s
      ≡ (if (x.frame.node_id == n) && (x.frame.sequence == s) then o else find_slot xs n s)

-- Nothing is due; or a pending slot whose deadline is reached is sent again, while it has
-- attempts left; or it is given up, when it has none.
pub data Due (p : RetryPolicy) (now : ℕ) (xs : List Slot) : List Slot × TxDecision → Type 0 where
  nothing : NothingDue now xs → Due p now xs (xs, no_decision)
  sends :
      (x : Slot) (ys : List Slot)
      → find_slot xs x.frame.node_id x.frame.sequence ≡ Option.some x
      → deadline_reached now x.deadline_ms ≡ true
      → x.attempts < p.max_attempts
      → Updates x (Option.some (sent_again p now x)) xs ys
      → Due p now xs (ys, record { action = send; frame = x.frame; attempts = u8 (x.attempts + 1) })
  gives_up :
      (x : Slot) (ys : List Slot)
      → find_slot xs x.frame.node_id x.frame.sequence ≡ Option.some x
      → deadline_reached now x.deadline_ms ≡ true
      → p.max_attempts ≤ x.attempts
      → Updates x Option.none xs ys
      → Due p now xs (ys, record { action = exhausted; frame = x.frame; attempts = x.attempts })

module _ (p : RetryPolicy) (now : ℕ) (x : Slot) (xs : List Slot) (u : Unique (x ∷ xs)) where
  apart :
      (y : Slot)
      → find_slot xs y.frame.node_id y.frame.sequence ≡ Option.some y
      → matches x y.frame.node_id y.frame.sequence ≡ false
  apart y e = ground (
    arith,
    has_pending-find_slot xs y.frame.node_id y.frame.sequence,
    has_pending-find_slot xs x.frame.node_id x.frame.sequence,
  )

  -- A pending slot further on is found behind `x` too, since its key is another.
  behind :
      (y : Slot)
      → find_slot xs y.frame.node_id y.frame.sequence ≡ Option.some y
      → find_slot (x ∷ xs) y.frame.node_id y.frame.sequence ≡ Option.some y
  behind y e = ground (arith, apart y e)

  behind-Updates :
      (y : Slot) (o : Option Slot) (ys : List Slot)
      → find_slot xs y.frame.node_id y.frame.sequence ≡ Option.some y
      → Updates y o xs ys
      → Updates y o (x ∷ xs) (x ∷ ys)
  behind-Updates y o ys e h n s = ground (arith, h n s, apart y e)

  Due-cons :
      {out : List Slot × TxDecision}
      → (x.active ≡ false) ⊎ (deadline_reached now x.deadline_ms ≡ false)
      → Due p now xs out
      → Due p now (x ∷ xs) (x ∷ out.0, out.1)
  Due-cons skip (nothing h) = nothing (skip, h)
  Due-cons skip (sends y ys e d a h) =
      sends y (x ∷ ys) (behind y e) d a (behind-Updates y (Option.some (sent_again p now y)) ys e h)
  Due-cons skip (gives_up y ys e d a h) =
      gives_up y (x ∷ ys) (behind y e) d a (behind-Updates y Option.none ys e h)

  head-sends :
      x.active ≡ true
      → Updates x (Option.some (sent_again p now x)) (x ∷ xs) (sent_again p now x ∷ xs)
  head-sends on n s = ground arith

  head-gives_up :
      x.active ≡ true → Updates x Option.none (x ∷ xs) (record x { active = false } ∷ xs)
  head-gives_up on n s = ground (
    arith,
    has_pending-find_slot xs x.frame.node_id x.frame.sequence,
    Option-cases (find_slot xs n s),
  )

module _ (p : RetryPolicy) (now : ℕ) (x : Slot) (xs : List Slot) where
  due_slot-skip :
      (x.active ≡ false) ⊎ (deadline_reached now x.deadline_ms ≡ false)
      → due_slot p now (x ∷ xs) ≡ (x ∷ (due_slot p now xs).0, (due_slot p now xs).1)
  unfolding due_slot
  due_slot-skip h = ground arith

  due_slot-send :
      x.active ≡ true
      → deadline_reached now x.deadline_ms ≡ true
      → x.attempts < p.max_attempts
      → due_slot p now (x ∷ xs) ≡ (
        sent_again p now x ∷ xs,
        record { action = send; frame = x.frame; attempts = u8 (x.attempts + 1) },
      )
  unfolding due_slot
  due_slot-send on d a = ground arith

  due_slot-give_up :
      x.active ≡ true
      → deadline_reached now x.deadline_ms ≡ true
      → p.max_attempts ≤ x.attempts
      → due_slot p now (x ∷ xs) ≡ (
        record x { active = false } ∷ xs,
        record { action = exhausted; frame = x.frame; attempts = x.attempts },
      )
  unfolding due_slot
  due_slot-give_up on d a = ground arith

  head-Due :
      Unique (x ∷ xs)
      → x.active ≡ true
      → deadline_reached now x.deadline_ms ≡ true
      → Due p now (x ∷ xs) (due_slot p now (x ∷ xs))
  head-Due u on d = elim (dec_lt x.attempts p.max_attempts) [
    | yes a ↦
        subst (Due p now (x ∷ xs)) (sym (due_slot-send on d a))
          (sends x (sent_again p now x ∷ xs) (ground arith) d a (head-sends p now x xs u on))
    | no a ↦
        let spent : p.max_attempts ≤ x.attempts = omega arith in
        subst (Due p now (x ∷ xs)) (sym (due_slot-give_up on d spent)) (
          gives_up x (record x { active = false } ∷ xs) (ground arith) d spent
            (head-gives_up p now x xs u on))
  ]

-- On slots with unique keys, the scan for due frames either finds no active slot whose deadline
-- is reached and changes nothing; or takes a pending slot whose deadline is reached, and sends
-- its frame again with a new deadline if attempts are left, or gives it up if none are, with
-- every other key as before.
pub due_slot-Due :
    (p : RetryPolicy) (now : ℕ) (xs : List Slot) → Unique xs → Due p now xs (due_slot p now xs)
unfolding due_slot
due_slot-Due p now [] u = nothing tt
due_slot-Due p now (x ∷ xs) u = elim (Bool-cases x.active) [
  | inl on ↦ elim (Bool-cases (deadline_reached now x.deadline_ms)) [
    | inl d ↦ head-Due p now x xs u on d
    | inr d ↦
        subst (Due p now (x ∷ xs)) (sym (due_slot-skip p now x xs (inr d)))
          (Due-cons p now x xs u (inr d) (due_slot-Due p now xs u.1))
  ]
  | inr off ↦
      subst (Due p now (x ∷ xs)) (sym (due_slot-skip p now x xs (inl off)))
        (Due-cons p now x xs u (inl off) (due_slot-Due p now xs u.1))
]

pub length-due_slot :
    (p : RetryPolicy) (now : ℕ) (xs : List Slot) → length (due_slot p now xs).0 ≡ length xs
unfolding due_slot
length-due_slot p now [] = refl
length-due_slot p now (x ∷ xs) = ground (arith, length-due_slot p now xs)

has_pending-due_slot :
    (p : RetryPolicy) (now : ℕ) (xs : List Slot) (n s : ℕ)
    → has_pending xs n s ≡ false
    → has_pending (due_slot p now xs).0 n s ≡ false
unfolding due_slot has_pending
has_pending-due_slot p now [] n s e = refl
has_pending-due_slot p now (x ∷ xs) n s e = ground (arith, has_pending-due_slot p now xs n s)

pub due_slot-Unique :
    (p : RetryPolicy) (now : ℕ) (xs : List Slot) → Unique xs → Unique (due_slot p now xs).0
unfolding due_slot
due_slot-Unique p now [] u = tt
due_slot-Unique p now (x ∷ xs) u = ground (
  arith,
  due_slot-Unique p now xs u.1,
  has_pending-due_slot p now xs x.frame.node_id x.frame.sequence,
)
