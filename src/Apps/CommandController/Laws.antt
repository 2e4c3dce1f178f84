-- ===== src/Apps/CommandController/Laws.antt =====
-- The queue of the command controller, over any transport.
use picomesh.Base.{
  ℕ, ◌≤◌, ◌<◌, ◌≡◌, refl, sym, ◌∙◌, ap, subst, List, [], ◌∷◌, not, ◌&&◌, ◌||◌, some, arith,
  Bool-cases, inl, inr, ◌⊎◌, replicate,
}
use picomesh.Base.{◌==◌, leb, sub32}
use picomesh.Frame.{Frame, IsFrame, DecodeError, is_ok, decode_frame, acknowledgement}
use picomesh.Ack.Laws.{parse_ack_frame-sent}
use picomesh.Frame.{DecodeResult}
use picomesh.Ack.{AckStatus, malformed, make_ack_frame, parse_ack_frame}
use picomesh.Frame.Decode.{sent}
use picomesh.ReliableQueue.{
  ReliableQueue, Slot, RetryPolicy, enqueue, next_due, due_slot, acknowledge, pending_count,
  count_active, new_queue,
}
use picomesh.ReliableQueue.Invariant.{
  IsValid, enqueue-IsValid, next_due-IsValid, acknowledge-IsValid, new_queue-IsValid,
}
use picomesh.ReliableQueue.Pending.{enqueue_lem, acknowledge_lem}
use picomesh.Transport.{Transport}
use picomesh.Apps.CommandController.{
  Controller, command_frame, resolve, enqueue_command, transmit_due, send_frame,
  receive_acknowledgement, renew, loop, new_controller,
}

due_slot-count :
    (p : RetryPolicy) (now : ℕ) (xs : List Slot)
    → count_active (due_slot p now xs).0 ≤ count_active xs
unfolding due_slot count_active
due_slot-count p now [] = omega arith
due_slot-count p now (x ∷ xs) = ground (arith, due_slot-count p now xs)

next_due-count : (q : ReliableQueue) (now : ℕ) → pending_count (next_due q now).0 ≤ pending_count q
unfolding next_due pending_count
next_due-count q now = due_slot-count q.policy now q.slots

-- The queue holds one command at most.
pub record IsSingle (q : ReliableQueue) : Type 0 where
  pub valid : IsValid q
  pub single : pending_count q ≤ 1

command_frame-IsFrame : (sequence : ℕ) → sequence < 256 → IsFrame (command_frame sequence)
unfolding command_frame
command_frame-IsFrame sequence h = omega arith

resolve-acknowledge :
    (q : ReliableQueue) (d : DecodeResult)
    → (resolve q d ≡ q)
      ⊎ ((n : ℕ) × (s : ℕ) × (status : AckStatus) × (resolve q d ≡ (acknowledge q n s status).0))
unfolding resolve
resolve-acknowledge q d =
    elim (Bool-cases (not (is_ok d) || not (d.frame.type == acknowledgement))) [
      | inl other ↦ inl (rw other refl)
      | inr answer ↦ elim (Bool-cases (parse_ack_frame d.frame 0 malformed).0) [
        | inl parsed ↦ inr (
          d.frame.node_id,
          (parse_ack_frame d.frame 0 malformed).1,
          (parse_ack_frame d.frame 0 malformed).2,
          rw (answer, parsed) refl,
        )
        | inr bad ↦ inl (rw (answer, bad) refl)
      ]
    ]

enqueue-IsSingle :
    {q : ReliableQueue} (f : Frame) (now : ℕ)
    → IsFrame f
    → IsValid q
    → pending_count q ≡ 0
    → IsSingle (enqueue q f now).0
enqueue-IsSingle {q} f now fr v none_pending = record {
  valid = enqueue-IsValid f now fr v;
  single = ground (arith, enqueue_lem q f now 0 0 v);
}

next_due-IsSingle : {q : ReliableQueue} (now : ℕ) → IsSingle q → IsSingle (next_due q now).0
next_due-IsSingle {q} now h = record {
  valid = next_due-IsValid now h.valid;
  single = omega (arith, next_due-count q now);
}

resolve-IsSingle : {q : ReliableQueue} (d : DecodeResult) → IsSingle q → IsSingle (resolve q d)
resolve-IsSingle {q} d h = elim (resolve-acknowledge q d) [
  | inl same ↦ subst IsSingle (sym same) h
  | inr (n, s, status, e) ↦ subst IsSingle (sym e) (record {
    valid = acknowledge-IsValid n s status h.valid;
    single = omega (arith, (acknowledge_lem q n s n s status h.valid).2);
  })
]

-- An acknowledgement that arrives whole resolves what it names.
resolve-make_ack_frame :
    (q : ReliableQueue) (node response acknowledged : ℕ) (status : AckStatus)
    → resolve q (record {
      frame = sent (make_ack_frame node response acknowledged status);
      error = DecodeError.none;
    })
      ≡ (acknowledge q node acknowledged status).0
unfolding resolve make_ack_frame is_ok
resolve-make_ack_frame q node response acknowledged status =
    rw (parse_ack_frame-sent node response acknowledged status 0 malformed) refl

module _ (T : Transport) where
  pub record IsSafe (c : Controller T) : Type 0 where
    pub single : IsSingle c.queue
    pub sequence_byte : c.sequence_number < 256

  pub transmit_due-queue :
      (c : Controller T) (now : ℕ)
      → ((transmit_due T c now).queue ≡ (next_due c.queue now).0)
        × ((transmit_due T c now).sequence_number ≡ c.sequence_number)
  unfolding transmit_due send_frame
  transmit_due-queue c now = (ground arith, ground arith)

  pub enqueue_command-IsSafe :
      {c : Controller T} (now : ℕ)
      → IsSafe c
      → pending_count c.queue ≡ 0
      → IsSafe (enqueue_command T c now)
  unfolding enqueue_command
  enqueue_command-IsSafe {c} now h none_pending = record {
    single =
        enqueue-IsSingle (command_frame c.sequence_number) now
          (command_frame-IsFrame c.sequence_number h.sequence_byte) h.single.valid none_pending;
    sequence_byte = omega arith;
  }

  pub renew-IsSafe : {c : Controller T} (now : ℕ) → IsSafe c → IsSafe (renew T c now)
  unfolding renew
  renew-IsSafe {c} now h =
      elim (Bool-cases ((pending_count c.queue == 0) && leb 5000 (sub32 now c.last_command_ms))) [
        | inl due ↦ rw due (
            enqueue_command-IsSafe now
              (record { single = h.single; sequence_byte = h.sequence_byte }) (ground (arith, due)))
        | inr early ↦ rw early h
      ]

  pub transmit_due-IsSafe : {c : Controller T} (now : ℕ) → IsSafe c → IsSafe (transmit_due T c now)
  transmit_due-IsSafe {c} now h = record {
    single = subst IsSingle (sym (transmit_due-queue c now).0) (next_due-IsSingle now h.single);
    sequence_byte = omega (arith, (transmit_due-queue c now).1);
  }

  pub receive_acknowledgement-IsSafe :
      {c : Controller T} → IsSafe c → IsSafe (receive_acknowledgement T c)
  unfolding receive_acknowledgement
  receive_acknowledgement-IsSafe {c} h = record {
    single =
        resolve-IsSingle
          (decode_frame (T.receive c.transport (some (replicate 40 0)) 40).1
            (T.receive c.transport (some (replicate 40 0)) 40).2)
          h.single;
    sequence_byte = h.sequence_byte;
  }

  loop-IsSafe : {c : Controller T} (now : ℕ) → IsSafe c → IsSafe (loop T c now)
  unfolding loop
  loop-IsSafe {c} now h =
      let t = transmit_due-IsSafe now (renew-IsSafe now h) in
      elim (Bool-cases (leb 20 (sub32 now (transmit_due T (renew T c now) now).last_receive_ms))) [
        | inl due ↦ rw due (
            receive_acknowledgement-IsSafe
              (record { single = t.single; sequence_byte = t.sequence_byte }))
        | inr early ↦ rw early t
      ]

  -- `loop` at each of the times given.
  pub run : Controller T → List ℕ → Controller T
  run c [] = c
  run c (now ∷ nows) = run (loop T c now) nows

  run-IsSafe : (nows : List ℕ) {c : Controller T} → IsSafe c → IsSafe (run c nows)
  unfolding run
  run-IsSafe [] h = h
  run-IsSafe (now ∷ nows) h = run-IsSafe nows (loop-IsSafe now h)

  pub new_controller-IsSafe : (t : T.State) → IsSafe (new_controller T t)
  unfolding new_queue pending_count count_active
  new_controller-IsSafe t = record {
    single = record {
      valid = new_queue-IsValid (record { timeout_ms = 250; max_attempts = 3 }) (omega arith);
      single = omega arith;
    };
    sequence_byte = omega arith;
  }

  -- Over any transport and at any times, after `setup` and any number of loops the queue of the
  -- command controller is valid and holds one command at most.
  pub run-IsSingle :
      (t : T.State) (start : ℕ) (nows : List ℕ)
      → IsSingle (run (enqueue_command T (new_controller T t) start) nows).queue
  unfolding new_queue pending_count count_active
  run-IsSingle t start nows =
      (run-IsSafe nows (enqueue_command-IsSafe start (new_controller-IsSafe t) refl)).single

  -- Over any transport: if what is received decodes to an acknowledgement as `make_ack_frame`
  -- makes it, the queue of the command controller is the one that `acknowledge` returns for its
  -- node, sequence and status.
  pub receive_acknowledgement-make :
      (c : Controller T) (node response acknowledged : ℕ) (status : AckStatus)
      → let out = T.receive c.transport (some (replicate 40 0)) 40 in
        decode_frame out.1 out.2 ≡ record {
          frame = sent (make_ack_frame node response acknowledged status);
          error = DecodeError.none;
        }
        → (receive_acknowledgement T c).queue ≡ (acknowledge c.queue node acknowledged status).0
  unfolding receive_acknowledgement
  receive_acknowledgement-make c node response acknowledged status arrived =
      ap (resolve c.queue) arrived
      ∙ resolve-make_ack_frame c.queue node response acknowledged status
