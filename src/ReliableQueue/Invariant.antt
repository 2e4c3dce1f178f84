-- ===== src/ReliableQueue/Invariant.antt =====
-- The invariant of the queue, through any sequence of calls.
use picomesh.Base.{
  ℕ, zero, suc, subst, ltb, length-replicate, ◌≤◌, ◌<◌, ◌≡◌, ◌⊎◌, inl, inr, refl, sym, ◌∙◌, ap,
  List, [], ◌∷◌, false, arith,
}
use picomesh.Base.{
  length, u8, bit_and, bit_or, bit_or_one, bit_and-bit_or_one, Bool-cases, replicate,
}
use picomesh.Frame.{Frame, IsFrame, max_payload_size}
use picomesh.Ack.{AckStatus, flag_ack_required}
use picomesh.ReliableQueue.{
  Slot, RetryPolicy, ReliableQueue, max_pending_transmissions, default_slot, new_queue, filled,
  fill_slot, has_pending, due_slot, free_slot, clear_slots, enqueue, next_due, acknowledge, cancel,
  clear,
}
use picomesh.ReliableQueue.Keys.{
  Unique, fill_slot-Unique, free_slot-Unique, length-fill_slot, length-free_slot,
}
use picomesh.ReliableQueue.Due.{due_slot-Unique, length-due_slot}

-- A pending frame wants an acknowledgement, fits a frame, and was not sent too often.
abbrev pub IsSlot : RetryPolicy → Slot → Type 0
IsSlot p x =
    (x.active ≡ false)
    ⊎ ((x.attempts ≤ p.max_attempts)
        × (x.frame.payload_length ≤ max_payload_size)
        × (bit_and x.frame.flags flag_ack_required ≡ 1))

abbrev pub AllSlots : RetryPolicy → List Slot → Type 0
AllSlots p [] = Unit
AllSlots p (x ∷ xs) = IsSlot p x × AllSlots p xs

pub record IsValid (q : ReliableQueue) : Type 0 where
  pub size : length q.slots ≡ max_pending_transmissions
  pub some_attempt : 1 ≤ q.policy.max_attempts
  pub limit_byte : q.policy.max_attempts < 256
  pub slots_ok : AllSlots q.policy q.slots
  pub unique : Unique q.slots

AllSlots-replicate : (p : RetryPolicy) (n : ℕ) → AllSlots p (replicate n default_slot)
AllSlots-replicate p zero = tt
AllSlots-replicate p (suc n) = (inl refl, AllSlots-replicate p n)

Unique-replicate : (n : ℕ) → Unique (replicate n default_slot)
Unique-replicate zero = tt
Unique-replicate (suc n) = (inl refl, Unique-replicate n)

clear_slots-replicate : (xs : List Slot) → clear_slots xs ≡ replicate (length xs) default_slot
unfolding clear_slots
clear_slots-replicate [] = refl
clear_slots-replicate (x ∷ xs) = ap (λ ys. default_slot ∷ ys) (clear_slots-replicate xs)

pub new_queue-IsValid : (p : RetryPolicy) → p.max_attempts < 256 → IsValid (new_queue p)
unfolding new_queue
new_queue-IsValid p h = record {
  size = refl;
  some_attempt = ground arith;
  limit_byte = ground arith;
  slots_ok = AllSlots-replicate (new_queue p).policy 8;
  unique = Unique-replicate 8;
}

filled-IsSlot :
    (p : RetryPolicy) (f : Frame) (now : ℕ)
    → IsFrame f
    → f.payload_length ≤ max_payload_size
    → IsSlot p (filled f now)
filled-IsSlot p f now v h = inr (omega arith, h, flag)
  where
    flag : bit_and (u8 (bit_or f.flags flag_ack_required)) flag_ack_required ≡ 1
    flag = ap (λ (b : ℕ). bit_and b 1) fits ∙ bit_and-bit_or_one f.flags v.flags_byte
      where
        fits : u8 (bit_or f.flags 1) ≡ bit_or f.flags 1
        fits = omega (arith, bit_or_one f.flags v.flags_byte, v.flags_byte)

fill_slot-AllSlots :
    (p : RetryPolicy) (xs : List Slot) (f : Frame) (now : ℕ)
    → IsSlot p (filled f now)
    → AllSlots p xs
    → AllSlots p (fill_slot xs f now).0
unfolding fill_slot
fill_slot-AllSlots p [] f now new all = tt
fill_slot-AllSlots p (x ∷ xs) f now new all = ground (arith, fill_slot-AllSlots p xs f now new)

free_slot-AllSlots :
    (p : RetryPolicy) (xs : List Slot) (n s : ℕ) → AllSlots p xs → AllSlots p (free_slot xs n s).0
unfolding free_slot
free_slot-AllSlots p [] n s all = tt
free_slot-AllSlots p (x ∷ xs) n s all = ground (arith, free_slot-AllSlots p xs n s)

due_slot-AllSlots :
    (p : RetryPolicy) (now : ℕ) (xs : List Slot) → AllSlots p xs → AllSlots p (due_slot p now xs).0
unfolding due_slot
due_slot-AllSlots p now [] all = tt
due_slot-AllSlots p now (x ∷ xs) all = ground (arith, due_slot-AllSlots p now xs)

pub enqueue-IsValid :
    {q : ReliableQueue} (f : Frame) (now : ℕ) → IsFrame f → IsValid q → IsValid (enqueue q f now).0
unfolding enqueue
enqueue-IsValid {q} f now fr v = elim (Bool-cases (ltb max_payload_size f.payload_length)) [
  | inl big ↦ rw big v
  | inr small ↦ elim (Bool-cases (has_pending q.slots f.node_id f.sequence)) [
    | inl old ↦ rw (small, old) v
    | inr new ↦
        rw (small, new)
          (record {
            size = length-fill_slot q.slots f now ∙ v.size;
            some_attempt = v.some_attempt;
            limit_byte = v.limit_byte;
            slots_ok =
                fill_slot-AllSlots q.policy q.slots f now
                  (filled-IsSlot q.policy f now fr (ground arith)) v.slots_ok;
            unique = fill_slot-Unique q.slots f now new v.unique;
          })
  ]
]

free-IsValid :
    {q : ReliableQueue} (n s : ℕ)
    → IsValid q
    → IsValid (record q { slots = (free_slot q.slots n s).0 })
free-IsValid {q} n s v = record {
  size = length-free_slot q.slots n s ∙ v.size;
  some_attempt = v.some_attempt;
  limit_byte = v.limit_byte;
  slots_ok = free_slot-AllSlots q.policy q.slots n s v.slots_ok;
  unique = free_slot-Unique q.slots n s v.unique;
}

pub next_due-IsValid : {q : ReliableQueue} (now : ℕ) → IsValid q → IsValid (next_due q now).0
unfolding next_due
next_due-IsValid {q} now v = record {
  size = length-due_slot q.policy now q.slots ∙ v.size;
  some_attempt = v.some_attempt;
  limit_byte = v.limit_byte;
  slots_ok = due_slot-AllSlots q.policy now q.slots v.slots_ok;
  unique = due_slot-Unique q.policy now q.slots v.unique;
}

clear-IsValid : {q : ReliableQueue} → IsValid q → IsValid (clear q)
unfolding clear
clear-IsValid {q} v = record {
  size = ap length (clear_slots-replicate q.slots) ∙ length-replicate (length q.slots) _ ∙ v.size;
  some_attempt = v.some_attempt;
  limit_byte = v.limit_byte;
  slots_ok =
      subst (AllSlots q.policy) (sym (clear_slots-replicate q.slots))
        (AllSlots-replicate q.policy (length q.slots));
  unique = subst Unique (sym (clear_slots-replicate q.slots)) (Unique-replicate (length q.slots));
}

pub acknowledge-IsValid :
    {q : ReliableQueue} (n s : ℕ) (status : AckStatus)
    → IsValid q
    → IsValid (acknowledge q n s status).0
unfolding acknowledge
acknowledge-IsValid n s status v = free-IsValid n s v

-- A call of the queue, with what the caller passes.
pub data Call : Type 0 where
  enqueues : (f : Frame) → IsFrame f → ℕ → Call
  asks : ℕ → Call
  acknowledges : ℕ → ℕ → AckStatus → Call
  cancels : ℕ → ℕ → Call
  clears : Call

pub step : ReliableQueue → Call → ReliableQueue
step q (enqueues f fr now) = (enqueue q f now).0
step q (asks now) = (next_due q now).0
step q (acknowledges n s status) = (acknowledge q n s status).0
step q (cancels n s) = (cancel q n s).0
step q clears = clear q

pub run : ReliableQueue → List Call → ReliableQueue
run q [] = q
run q (c ∷ cs) = run (step q c) cs

step-IsValid : {q : ReliableQueue} (c : Call) → IsValid q → IsValid (step q c)
unfolding step acknowledge cancel
step-IsValid (enqueues f fr now) v = enqueue-IsValid f now fr v
step-IsValid (asks now) v = next_due-IsValid now v
step-IsValid (acknowledges n s status) v = free-IsValid n s v
step-IsValid (cancels n s) v = free-IsValid n s v
step-IsValid clears v = clear-IsValid v

run-IsValid : (q : ReliableQueue) (cs : List Call) → IsValid q → IsValid (run q cs)
unfolding run
run-IsValid q [] v = v
run-IsValid q (c ∷ cs) v = run-IsValid (step q c) cs (step-IsValid c v)

-- After any calls, in any order, on a new queue whose attempt limit is a byte: there are eight
-- slots, no key is pending twice, and every pending frame has the flag that asks for an
-- acknowledgement, fits a frame, and was sent at most as often as allowed.
pub run-new_queue-IsValid :
    (p : RetryPolicy) (cs : List Call) → p.max_attempts < 256 → IsValid (run (new_queue p) cs)
run-new_queue-IsValid p cs h = run-IsValid (new_queue p) cs (new_queue-IsValid p h)
