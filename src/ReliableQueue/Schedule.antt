-- ===== src/ReliableQueue/Schedule.antt =====
-- The life of one frame that is never acknowledged.
use picomesh.Base.{
  ℕ, zero, suc, ◌+◌, ◌≤◌, ◌<◌, ◌≡◌, refl, ◌∙◌, ap, List, [], ◌∷◌, ◌++◌, true, arith,
}
use picomesh.Base.{le→not-ltb, replicate, u32}
use picomesh.Frame.{Frame, max_payload_size}
use picomesh.ReliableQueue.{
  Slot, RetryPolicy, ReliableQueue, TxDecision, TxAction, send, exhausted, default_slot, filled,
  new_queue, enqueue, fill_slot, has_pending, deadline_reached, due_slot, next_due,
}

-- What the queue decides when it is asked every `timeout` ms, `rounds` times, from time `now` on.
abbrev pub actions : ReliableQueue → ℕ → ℕ → ℕ → List TxAction
actions q timeout now zero = []
actions q timeout now (suc rounds) =
    (next_due q (u32 now)).1.action
    ∷ actions (next_due q (u32 now)).0 timeout (now + timeout) rounds

module _ (p : RetryPolicy) (limit_byte : p.max_attempts < 256) where
  -- The queue with one pending slot, the first.
  abbrev alone : Slot → ReliableQueue
  alone x = record { slots = x ∷ replicate 7 default_slot; policy = p }

  next_due-send :
      (x : Slot) (now : ℕ)
      → x.active ≡ true
      → x.deadline_ms ≡ u32 now
      → x.attempts < p.max_attempts
      → next_due (alone x) (u32 now) ≡ (
        alone (record x { attempts = x.attempts + 1; deadline_ms = u32 (now + p.timeout_ms) }),
        record { action = send; frame = x.frame; attempts = x.attempts + 1 },
      )
  unfolding next_due due_slot deadline_reached
  next_due-send x now on due left = ground arith

  next_due-give_up :
      (x : Slot) (now : ℕ)
      → x.active ≡ true
      → x.deadline_ms ≡ u32 now
      → x.attempts ≡ p.max_attempts
      → (next_due (alone x) (u32 now)).1.action ≡ exhausted
  unfolding next_due due_slot deadline_reached
  next_due-give_up x now on due spent = ground arith

  actions-alone :
      (left : ℕ) (x : Slot) (now : ℕ)
      → x.active ≡ true
      → x.deadline_ms ≡ u32 now
      → x.attempts + left ≡ p.max_attempts
      → actions (alone x) p.timeout_ms now (suc left) ≡ replicate left send ++ exhausted ∷ []
  actions-alone zero x now on due e = ap (λ a. a ∷ []) (next_due-give_up x now on due (omega arith))
  actions-alone (suc left) x now on due e =
      ap
        (λ (out : ReliableQueue × TxDecision).
          out.1.action ∷ actions out.0 p.timeout_ms (now + p.timeout_ms) (suc left))
        (next_due-send x now on due (omega arith))
      ∙ ap (λ later. send ∷ later)
          (actions-alone left
            (record x { attempts = x.attempts + 1; deadline_ms = u32 (now + p.timeout_ms) })
            (now + p.timeout_ms) on refl (omega arith))

enqueue-alone :
    (p : RetryPolicy) (f : Frame) (now : ℕ)
    → f.payload_length ≤ max_payload_size
    → (enqueue (new_queue p) f now).0
      ≡ record { slots = filled f now ∷ replicate 7 default_slot; policy = (new_queue p).policy }
unfolding enqueue new_queue has_pending fill_slot
enqueue-alone p f now h = rw (le→not-ltb max_payload_size f.payload_length h)

limit-new_queue : (p : RetryPolicy) → p.max_attempts < 256 → (new_queue p).policy.max_attempts < 256
unfolding new_queue
limit-new_queue p h = ground arith

-- A frame put into a new queue that is never acknowledged, if the queue is asked at once and then
-- each time the timeout has passed, is sent exactly as often as the policy allows and then given
-- up, whatever the timeout and however the clock wraps; the attempt limit is a byte and the
-- payload at most 32 bytes.
pub actions-enqueue :
    (p : RetryPolicy) (f : Frame) (start : ℕ)
    → p.max_attempts < 256
    → f.payload_length ≤ max_payload_size
    → let q = (enqueue (new_queue p) f (u32 start)).0 in
      actions q q.policy.timeout_ms start (suc q.policy.max_attempts)
      ≡ replicate q.policy.max_attempts send ++ exhausted ∷ []
actions-enqueue p f start h small = rw (enqueue-alone p f (u32 start) small) (
    actions-alone (new_queue p).policy (limit-new_queue p h) (new_queue p).policy.max_attempts
      (filled f (u32 start)) start refl refl (omega arith))
