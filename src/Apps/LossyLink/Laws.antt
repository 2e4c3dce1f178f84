-- ===== src/Apps/LossyLink/Laws.antt =====
-- The command arrives with the second transmission.
use picomesh.Base.{
  ℕ, zero, suc, ◌+◌, ◌*◌, ◌/◌, ◌^◌, ◌≤◌, ◌<◌, ◌≡◌, refl, sym, ◌∙◌, ap, subst, ◌∷◌, false, arith,
  Bool-cases, inl, inr, replicate,
}
use picomesh.Base.{◌==◌, leb}
use picomesh.Frame.{Frame, max_payload_size}
use picomesh.ReliableQueue.{
  Slot, ReliableQueue, RetryPolicy, queued, default_slot, filled, new_queue, enqueue, fill_slot,
  has_pending, next_due, due_slot, deadline_reached, acknowledge, free_slot, pending_count,
  count_active,
}
use picomesh.Apps.LossyLink.{Link, round, loop, entered, simulate}

module _ (t a : ℕ) (f : Frame) (few : a < 256) (enough : 2 ≤ a) (near : t ≤ 2 ^ 31) where
  abbrev policy : RetryPolicy
  policy = record { timeout_ms = t; max_attempts = a }

  abbrev alone : Slot → ReliableQueue
  alone x = record { slots = x ∷ replicate 7 default_slot; policy = policy }

  -- After the first transmission, with `k` rounds done.
  abbrev waiting : ℕ → Link
  waiting k = record {
    queue = alone (record (filled f 0) { attempts = 1; deadline_ms = t });
    now_ms = 50 * k;
    simulated_transmissions = 1;
  }

  -- The loop has ended, after two transmissions.
  abbrev Done : Link → Type 0
  Done l = (pending_count l.queue ≡ 0) × (l.simulated_transmissions ≡ 2)

  round-first :
      round (record { queue = alone (filled f 0); now_ms = 0; simulated_transmissions = 0 })
      ≡ waiting 1
  unfolding round next_due due_slot deadline_reached
  round-first = ground arith

  round-idle : (k : ℕ) → 50 * k < t → round (waiting k) ≡ waiting (k + 1)
  unfolding round next_due due_slot deadline_reached
  round-idle k early = ground arith

  round-Done : (k : ℕ) → t ≤ 50 * k → 50 * k ≤ t + 50 → Done (round (waiting k))
  unfolding round next_due due_slot deadline_reached acknowledge free_slot pending_count
      count_active
  round-Done k due soon = ground arith

  waiting-pending : (k : ℕ) → (pending_count (waiting k).queue == 0) ≡ false
  unfolding pending_count count_active
  waiting-pending k = refl

  loop-ended : (fuel : ℕ) (l : Link) → pending_count l.queue ≡ 0 → loop (suc fuel) l ≡ l
  unfolding loop
  loop-ended fuel l e = ground (arith, e)

  loop-waiting : (fuel k : ℕ) → loop (suc fuel) (waiting k) ≡ loop fuel (round (waiting k))
  unfolding loop
  loop-waiting fuel k = rw (waiting-pending k) refl

  -- The round at which the timeout has passed ends the loop.
  loop-due : (fuel k : ℕ) → t ≤ 50 * k → 50 * k ≤ t + 50 → Done (loop (suc (suc fuel)) (waiting k))
  loop-due fuel k due soon =
      let d = round-Done k due soon in
      subst Done (sym (loop-waiting (suc fuel) k ∙ loop-ended fuel (round (waiting k)) d.0)) d

  loop-Done :
      (left k : ℕ)
      → t ≤ 50 * (k + left)
      → 50 * k ≤ t + 50
      → Done (loop (suc (suc left)) (waiting k))
  loop-Done zero k late soon = loop-due zero k (omega arith) soon
  loop-Done (suc left) k late soon = elim (Bool-cases (leb t (50 * k))) [
    | inl due ↦ loop-due (suc left) k (ground (arith, due)) soon
    | inr early ↦
        let idle : 50 * k < t = ground (arith, early) in
        subst Done
          (sym (loop-waiting (suc (suc left)) k ∙ ap (loop (suc (suc left))) (round-idle k idle)))
          (loop-Done left (k + 1) (omega arith) (omega arith))
  ]

  loop-start :
      (fuel : ℕ)
      → loop
          (suc fuel)
          (record { queue = alone (filled f 0); now_ms = 0; simulated_transmissions = 0 })
        ≡ loop fuel (waiting 1)
  unfolding loop pending_count count_active
  loop-start fuel = ap (loop fuel) round-first

entered-eq :
    (t a : ℕ) (f : Frame)
    → 2 ≤ a
    → f.payload_length ≤ max_payload_size
    → (entered (record { timeout_ms = t; max_attempts = a }) f ≡ record {
      queue = record {
        slots = filled f 0 ∷ replicate 7 default_slot;
        policy = record { timeout_ms = t; max_attempts = a };
      };
      now_ms = 0;
      simulated_transmissions = 0;
    })
      × ((enqueue (new_queue (record { timeout_ms = t; max_attempts = a })) f 0).1 ≡ queued)
unfolding entered enqueue new_queue has_pending fill_slot
entered-eq t a f enough small = (ground (arith, small), ground (arith, small))

-- For every policy with at least two attempts, a byte, and a timeout of at most 2^31 ms, and
-- every command whose payload fits: the loop of the lossy link, with three rounds more than the
-- quotient of the timeout by 50, ends with nothing pending, and the program returns 0, that is
-- after exactly two transmissions.
pub simulate-ends :
    (t a : ℕ) (f : Frame)
    → a < 256
    → 2 ≤ a
    → t ≤ 2 ^ 31
    → f.payload_length ≤ max_payload_size
    → let p : RetryPolicy = record { timeout_ms = t; max_attempts = a } in
      (pending_count (loop (t / 50 + 3) (entered p f)).queue ≡ 0) × (simulate (t / 50 + 3) p f ≡ 0)
unfolding simulate
simulate-ends t a f few enough near small =
    (ended.0, rw ((entered-eq t a f enough small).1, ended.1) refl)
  where
    p : RetryPolicy
    p = record { timeout_ms = t; max_attempts = a }

    enough_fuel : t / 50 + 3 ≡ suc (suc (suc (t / 50)))
    enough_fuel = omega arith

    late : t ≤ 50 * (1 + t / 50)
    late = omega arith

    ended :
        (pending_count (loop (t / 50 + 3) (entered p f)).queue ≡ 0)
        × ((loop (t / 50 + 3) (entered p f)).simulated_transmissions ≡ 2)
    ended =
        subst (λ (l : Link). (pending_count l.queue ≡ 0) × (l.simulated_transmissions ≡ 2))
          (sym (
            ap (λ fuel. loop fuel (entered p f)) enough_fuel
            ∙ ap (loop (suc (suc (suc (t / 50))))) (entered-eq t a f enough small).0
            ∙ loop-start t a f few enough near (suc (suc (t / 50)))))
          (loop-Done t a f few enough near (t / 50) 1 late (omega arith))
