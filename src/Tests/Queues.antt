-- ===== src/Tests/Queues.antt =====
-- The retry queue on a concrete command.
use picomesh.Base.{◌+◌, ◌≤◌, ◌<◌, ◌≡◌, ◌≢◌, ◌⊎◌, inr, refl, [], ◌∷◌, Option, arith}
use picomesh.Base.{replicate}
use picomesh.Frame.{Frame, IsFrame, command, default_frame}
use picomesh.Ack.{busy}
use picomesh.ReliableQueue.{
  RetryPolicy, ReliableQueue, queued, invalid, send, exhausted, rejected, default_slot, new_queue,
  filled, enqueue, next_due, due_slot, acknowledge, pending_count, count_active, deadline_reached,
  has_pending, fill_slot,
}
use picomesh.ReliableQueue.Invariant.{
  IsValid, enqueues, asks, acknowledges, run, run-new_queue-IsValid, new_queue-IsValid,
  enqueue-IsValid,
}
use picomesh.ReliableQueue.Pending.{pending, owed, enqueue_lem, acknowledge_lem}
use picomesh.ReliableQueue.Retry.{ask_all, budget, ask_all-bound}
use picomesh.ReliableQueue.View.{ValidQueue, adds, resolves}
use picomesh.ReliableQueue.View.Order.{swaps, step_all, step_all-Reorders}
use picomesh.ReliableQueue.Schedule.{actions, actions-enqueue}

abbrev policy : RetryPolicy
policy = record { timeout_ms = 100; max_attempts = 2 }

abbrev order : Frame
order = record default_frame { type = command; node_id = 7; sequence = 42 }

order-IsFrame : IsFrame order
order-IsFrame = omega arith

-- The queue that holds the command since time 1000.
abbrev holding : ReliableQueue
holding = record { slots = filled order 1000 ∷ replicate 7 default_slot; policy = policy }

enqueue_twice :
    (enqueue (new_queue policy) order 1000 ≡ (holding, queued))
    × ((enqueue holding order 1000).1 ≡ invalid)
unfolding enqueue new_queue has_pending fill_slot
enqueue_twice = (refl, refl)

retries : actions holding 100 1000 3 ≡ send ∷ send ∷ exhausted ∷ []
unfolding next_due due_slot deadline_reached
retries = refl

holding-IsValid : IsValid holding
unfolding enqueue new_queue has_pending fill_slot
holding-IsValid = enqueue-IsValid order 1000 order-IsFrame (new_queue-IsValid policy (omega arith))

run-new_queue-IsValid_example : IsValid (
    run
      (new_queue policy)
      (enqueues order order-IsFrame 1000 ∷ asks 1000 ∷ acknowledges 7 42 busy ∷ []))
run-new_queue-IsValid_example =
    run-new_queue-IsValid policy
      (enqueues order order-IsFrame 1000 ∷ asks 1000 ∷ acknowledges 7 42 busy ∷ []) (omega arith)

enqueue_lem_example :
    ((enqueue holding order 1000).1 ≡ owed holding order)
    × (((owed holding order ≡ queued)
          × (pending (enqueue holding order 1000).0 7 42 ≡ Option.some (filled order 1000))
          × (pending_count (enqueue holding order 1000).0 ≡ pending_count holding + 1))
        ⊎ ((owed holding order ≢ queued) × ((enqueue holding order 1000).0 ≡ holding)))
enqueue_lem_example = enqueue_lem holding order 1000 7 42 holding-IsValid

acknowledge_lem_example :
    ((acknowledge holding 7 42 busy).1 ≡ rejected)
    × (pending (acknowledge holding 7 42 busy).0 7 42 ≡ Option.none)
    × (pending_count (acknowledge holding 7 42 busy).0 + 1 ≡ pending_count holding)
acknowledge_lem_example = acknowledge_lem holding 7 42 7 42 busy holding-IsValid

ask_all-bound_example :
    ((ask_all holding (1000 ∷ 1100 ∷ [])).1 ≤ 24)
    × (((ask_all holding (1000 ∷ 1100 ∷ [])).1 < budget holding)
        ⊎ (pending_count (ask_all holding (1000 ∷ 1100 ∷ [])).0 ≡ 0))
ask_all-bound_example = ask_all-bound holding (1000 ∷ 1100 ∷ []) holding-IsValid

actions-enqueue_example :
    actions (enqueue (new_queue policy) order 1000).0 100 1000 3 ≡ send ∷ send ∷ exhausted ∷ []
unfolding enqueue new_queue has_pending fill_slot
actions-enqueue_example = actions-enqueue policy order 1000 (omega arith) (omega arith)

-- The command is resolved before or after another is added.
abbrev other : Frame
other = record default_frame { type = command; node_id = 7; sequence = 43 }

other-IsFrame : IsFrame other
other-IsFrame = omega arith

abbrev holding_valid : ValidQueue
holding_valid = (holding, holding-IsValid)

step_all-Reorders_example :
    (pending
        (step_all (adds other other-IsFrame 1050 ∷ resolves 7 42 busy ∷ []) holding_valid).0
        7
        43
      ≡ pending
          (step_all (resolves 7 42 busy ∷ adds other other-IsFrame 1050 ∷ []) holding_valid).0
          7
          43)
    × (pending_count
          (step_all (adds other other-IsFrame 1050 ∷ resolves 7 42 busy ∷ []) holding_valid).0
        ≡ pending_count
            (step_all (resolves 7 42 busy ∷ adds other other-IsFrame 1050 ∷ []) holding_valid).0)
unfolding pending_count count_active
step_all-Reorders_example =
    step_all-Reorders holding_valid 7 43
      (swaps (adds other other-IsFrame 1050) (resolves 7 42 busy) [] (inr (omega arith)))
      (omega arith)
