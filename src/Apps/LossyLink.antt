-- ===== src/Apps/LossyLink.antt =====
-- examples/lossy_link_simulator.cpp: a command over a link that drops the first packet.
pub mod Laws
use picomesh.Base.{ℕ, zero, suc, ◌+◌, Bool, true, false, not}
use picomesh.Base.{◌==◌, if◌then◌else◌, set, u32}
use picomesh.Frame.{Frame, command, default_frame}
use picomesh.Ack.{AckStatus}
use picomesh.ReliableQueue.{
  ReliableQueue, RetryPolicy, QueueResult, queued, full, invalid, TxAction, new_queue, enqueue,
  next_due, acknowledge, pending_count,
}

-- The local variables of `main`.
pub record Link : Type 0 where
  pub queue : ReliableQueue
  pub now_ms : ℕ
  pub simulated_transmissions : ℕ

-- A transmission: the first is dropped, and each later one is acknowledged.
unfoldable pub transmit : Link → Frame → Link
transmit l frame =
    let count = u32 (l.simulated_transmissions + 1) in
    let counted = record l { simulated_transmissions = count } in
    if count == 1 then counted else record counted {
      queue = (acknowledge l.queue frame.node_id frame.sequence AckStatus.accepted).0;
    }

-- The body of the loop.
unfoldable pub round : Link → Link
unfolding transmit
round l =
    let (queue, decision) = next_due l.queue l.now_ms in
    let decided = record l { queue = queue } in
    let acted : Link = elim decision.action [
      | TxAction.none ↦ decided
      | TxAction.send ↦ transmit decided decision.frame
      | TxAction.exhausted ↦ decided
    ] in
    record acted { now_ms = u32 (l.now_ms + 50) }

-- `while (queue.pending_count() != 0)`, with fuel.
unfoldable pub loop : ℕ → Link → Link
loop zero l = l
loop (suc fuel) l = let rest = loop fuel (round l) in if pending_count l.queue == 0 then l else rest

abbrev pub is_queued : QueueResult → Bool
is_queued queued = true
is_queued full = false
is_queued invalid = false

-- The variables when the loop is entered.
unfoldable pub entered : RetryPolicy → Frame → Link
entered policy frame = record {
  queue = (enqueue (new_queue policy) frame 0).0;
  now_ms = 0;
  simulated_transmissions = 0;
}

-- `main`, for any policy and command, with its exit code.
unfoldable pub simulate : ℕ → RetryPolicy → Frame → ℕ
simulate fuel policy frame =
    if not (is_queued (enqueue (new_queue policy) frame 0).1)
    then 1
    else let ended = loop fuel (entered policy frame) in
      if ended.simulated_transmissions == 2 then 0 else 1

-- What `main` runs with.
abbrev pub link_policy : RetryPolicy
link_policy = record { timeout_ms = 200; max_attempts = 3 }

abbrev pub link_command : Frame
link_command = record default_frame {
  type = command;
  node_id = 4;
  sequence = 17;
  payload_length = 1;
  payload = set default_frame.payload 0 0x55;
}
