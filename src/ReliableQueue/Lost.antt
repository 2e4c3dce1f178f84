-- ===== src/ReliableQueue/Lost.antt =====
-- When a pending frame leaves the queue without an answer.
use picomesh.Base.{ℕ, ◌≤◌, ◌≡◌, subst, List, [], ◌∷◌, Option, arith, bit_and, Bool-cases, inl, inr}
use picomesh.Ack.{flag_ack_required}
use picomesh.ReliableQueue.{Slot, RetryPolicy, TxDecision, matches}
use picomesh.ReliableQueue.Keys.{find_slot}
use picomesh.ReliableQueue.Invariant.{AllSlots}
use picomesh.ReliableQueue.Due.{Due}

-- A pending frame has been sent no more often than the policy allows, and has the flag that asks
-- for an acknowledgement.
pub find_slot-IsSlot :
    (p : RetryPolicy) (xs : List Slot) (n s : ℕ) (x : Slot)
    → AllSlots p xs
    → find_slot xs n s ≡ Option.some x
    → (x.attempts ≤ p.max_attempts) × (bit_and x.frame.flags flag_ack_required ≡ 1)
find_slot-IsSlot p [] n s x all e = absurd (ground (arith, e))
find_slot-IsSlot p (y ∷ xs) n s x all e = elim (Bool-cases (matches y n s)) [
  | inl here ↦
      let same : y ≡ x = ground (arith, here, e) in
      subst
        (λ (z : Slot).
          (z.attempts ≤ p.max_attempts) × (bit_and z.frame.flags flag_ack_required ≡ 1))
        same (ground (arith, here, all.0), ground (arith, here, all.0))
  | inr other ↦ find_slot-IsSlot p xs n s x all.1 (ground (arith, other, e))
]

-- A key that is pending before the scan and not behind it has no attempt left.
pub Due-lost :
    {p : RetryPolicy} {now : ℕ} {xs : List Slot} {out : List Slot × TxDecision} (m r : ℕ) (x : Slot)
    → Due p now xs out
    → find_slot xs m r ≡ Option.some x
    → find_slot out.0 m r ≡ Option.none
    → p.max_attempts ≤ x.attempts
Due-lost m r x (Due.nothing h) before after = absurd (ground (arith, before, after))
Due-lost m r x (Due.sends y ys found d a h) before after =
    absurd (ground (arith, before, after, h m r))
Due-lost {p} {xs = xs} m r x (Due.gives_up y ys found d a h) before after =
    let same : y ≡ x = ground (arith, before, after, found, h m r) in
    subst (λ (z : Slot). p.max_attempts ≤ z.attempts) same a
