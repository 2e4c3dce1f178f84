-- ===== src/ReliableQueue/Retry.antt =====
-- How often and when a pending frame is sent.
use picomesh.Base.{
  ℕ, suc, ◌+◌, ◌-◌, ◌*◌, ◌^◌, ◌≤◌, ◌<◌, ◌≡◌, ◌⊎◌, inl, inr, ap, List, [], ◌∷◌, arith,
}
use picomesh.Base.{length, u32, leb, if◌then◌else◌}
use native.Mathlib.Decide.{dec_lt}
use picomesh.ReliableQueue.{
  Slot, RetryPolicy, ReliableQueue, TxAction, none, deadline_reached, due_slot, next_due,
  count_active, pending_count, max_pending_transmissions,
}
use picomesh.ReliableQueue.Invariant.{IsValid, AllSlots, next_due-IsValid}

-- A deadline set a timeout of at most 2^31 ms ahead is reached exactly if the timeout has passed,
-- wherever the clock wraps, for as long as less than the timeout and 2^31 ms have passed.
deadline_reached_lem :
    (now timeout elapsed : ℕ)
    → timeout ≤ 2 ^ 31
    → elapsed < timeout + 2 ^ 31
    → deadline_reached (u32 (now + elapsed)) (u32 (u32 now + timeout)) ≡ leb timeout elapsed
unfolding deadline_reached
deadline_reached_lem now timeout elapsed half soon = ground arith

-- The decisions that the slots can still cause: the sends that are left, and giving up.
pub budget_of : RetryPolicy → List Slot → ℕ
budget_of p [] = 0
budget_of p (x ∷ xs) =
    if x.active then p.max_attempts - x.attempts + 1 + budget_of p xs else budget_of p xs

pub budget : ReliableQueue → ℕ
budget q = budget_of q.policy q.slots

abbrev pub decided : TxAction → ℕ
decided a = elim a [ none ↦ 0 | _ ↦ 1 ]

due_slot-budget :
    (p : RetryPolicy) (now : ℕ) (xs : List Slot)
    → p.max_attempts < 256
    → AllSlots p xs
    → budget_of p (due_slot p now xs).0 + decided (due_slot p now xs).1.action ≡ budget_of p xs
unfolding due_slot budget_of
due_slot-budget p now [] h all = omega arith
due_slot-budget p now (x ∷ xs) h all = ground (arith, due_slot-budget p now xs h)

-- Every decision to send or to give up uses up one of the budget, and `none` uses none, whatever
-- the clock shows.
next_due-budget :
    (q : ReliableQueue) (now : ℕ)
    → IsValid q
    → budget (next_due q now).0 + decided (next_due q now).1.action ≡ budget q
unfolding next_due budget
next_due-budget q now v = due_slot-budget q.policy now q.slots v.limit_byte v.slots_ok

budget_of-bounds :
    (p : RetryPolicy) (xs : List Slot)
    → (count_active xs ≤ budget_of p xs) × (budget_of p xs ≤ length xs * (p.max_attempts + 1))
unfolding budget_of count_active
budget_of-bounds p [] = omega arith
budget_of-bounds p (x ∷ xs) =
    ground (arith, budget_of-bounds p xs, suc-mul (length xs) (p.max_attempts + 1))
  where
    suc-mul : (n m : ℕ) → suc n * m ≡ n * m + m
    suc-mul n m = omega arith

-- The queue asked at each of the given times, and the decisions that were not `none`.
pub ask_all : ReliableQueue → List ℕ → ReliableQueue × ℕ
ask_all q [] = (q, 0)
ask_all q (now ∷ nows) =
    let (q', d) = next_due q now in let (q'', n) = ask_all q' nows in (q'', decided d.action + n)

ask_all-budget :
    (q : ReliableQueue) (nows : List ℕ)
    → IsValid q
    → budget (ask_all q nows).0 + (ask_all q nows).1 ≡ budget q
unfolding ask_all
ask_all-budget q [] v = omega arith
ask_all-budget q (now ∷ nows) v = omega (
  arith,
  next_due-budget q now v,
  ask_all-budget (next_due q now).0 nows (next_due-IsValid now v),
)

-- However often and at whatever times a valid queue is asked, with nothing added meanwhile, it
-- decides to send or to give up at most limit + 1 times for each of its eight slots; either fewer
-- decisions than its budget have been made or nothing is pending.
pub ask_all-bound :
    (q : ReliableQueue) (nows : List ℕ)
    → IsValid q
    → ((ask_all q nows).1 ≤ max_pending_transmissions * (q.policy.max_attempts + 1))
      × (((ask_all q nows).1 < budget q) ⊎ (pending_count (ask_all q nows).0 ≡ 0))
unfolding budget pending_count
ask_all-bound q nows v = (
  omega (
    arith,
    ask_all-budget q nows v,
    budget_of-bounds q.policy q.slots,
    ap (λ (k : ℕ). k * (q.policy.max_attempts + 1)) v.size,
  ),
  elim (dec_lt (ask_all q nows).1 (budget q)) [
    | yes h ↦ inl h
    | no h ↦ inr (
        omega (
          arith,
          ask_all-budget q nows v,
          budget_of-bounds (ask_all q nows).0.policy (ask_all q nows).0.slots,
        ))
  ],
)
