-- ===== src/ReliableQueue.antt =====
-- include/picomesh/reliability.h and src/reliability.cpp: the retry queue for frames that want an
-- acknowledgement. A range-for over the eight slots is a recursion on the list of slots.
pub mod Lost
pub mod View
pub mod Keys
pub mod Due
pub mod Invariant
pub mod Pending
pub mod Retry
pub mod Schedule
use picomesh.Base.{
  ℕ, ◌+◌, ◌^◌, ◌≡◌, List, [], ◌∷◌, Bool, true, false, not, ◌&&◌, ◌||◌, Option, some, bit_or,
}
use picomesh.Base.{replicate, u8, u32, sub32, ltb, leb, ◌==◌, if◌then◌else◌}
use picomesh.Frame.{Frame, default_frame, max_payload_size}
use picomesh.Ack.{AckStatus, flag_ack_required}
use picomesh.Ack

abbrev pub max_pending_transmissions : ℕ
max_pending_transmissions = 8

pub record RetryPolicy : Type 0 where
  pub timeout_ms : ℕ
  pub max_attempts : ℕ

pub data QueueResult : Type 0 where
  queued full invalid : QueueResult

pub data TxAction : Type 0 where
  none send exhausted : TxAction

pub record TxDecision : Type 0 where
  pub action : TxAction
  pub frame : Frame
  pub attempts : ℕ

-- `TxDecision{}`
abbrev pub no_decision : TxDecision
no_decision = record { action = none; frame = default_frame; attempts = 0 }

pub data AckResolution : Type 0 where
  not_found accepted rejected : AckResolution

pub record Slot : Type 0 where
  pub frame : Frame
  pub deadline_ms : ℕ
  pub attempts : ℕ
  pub active : Bool

-- `Slot{}`
abbrev pub default_slot : Slot
default_slot = record { frame = default_frame; deadline_ms = 0; attempts = 0; active = false }

pub record ReliableQueue : Type 0 where
  pub slots : List Slot
  pub policy : RetryPolicy

-- The difference read as an `int32_t` is not negative.
unfoldable pub deadline_reached : ℕ → ℕ → Bool
deadline_reached now_ms deadline_ms = ltb (sub32 now_ms deadline_ms) (2 ^ 31)

unfoldable pub new_queue : RetryPolicy → ReliableQueue
new_queue policy = record {
  slots = replicate max_pending_transmissions default_slot;
  policy = if policy.max_attempts == 0 then record policy { max_attempts = 1 } else policy;
}

-- The test by which a slot is found, in `enqueue`, `acknowledge` and `cancel`.
abbrev pub matches : Slot → ℕ → ℕ → Bool
matches slot node_id sequence =
    slot.active && (slot.frame.node_id == node_id) && (slot.frame.sequence == sequence)

-- The first loop of `enqueue`.
unfoldable pub has_pending : List Slot → ℕ → ℕ → Bool
has_pending [] node_id sequence = false
has_pending (slot ∷ slots) node_id sequence =
    if matches slot node_id sequence then true else has_pending slots node_id sequence

abbrev pub filled : Frame → ℕ → Slot
filled input now_ms = record {
  frame = record input { flags = u8 (bit_or input.flags flag_ack_required) };
  deadline_ms = now_ms;
  attempts = 0;
  active = true;
}

-- The second loop of `enqueue`: the first free slot is filled.
unfoldable pub fill_slot : List Slot → Frame → ℕ → List Slot × QueueResult
fill_slot [] input now_ms = ([], full)
fill_slot (slot ∷ slots) input now_ms =
    let rest = fill_slot slots input now_ms in
    if not slot.active then (filled input now_ms ∷ slots, queued) else (slot ∷ rest.0, rest.1)

unfoldable pub enqueue : ReliableQueue → Frame → ℕ → ReliableQueue × QueueResult
enqueue q input now_ms =
    if ltb max_payload_size input.payload_length
    then (q, invalid)
    else if has_pending q.slots input.node_id input.sequence
    then (q, invalid)
    else let (slots, result) = fill_slot q.slots input now_ms in
      (record q { slots = slots }, result)

-- The loop of `next_due`: the first active slot whose deadline is reached.
unfoldable pub due_slot : RetryPolicy → ℕ → List Slot → List Slot × TxDecision
due_slot policy now_ms [] = ([], no_decision)
due_slot policy now_ms (slot ∷ slots) =
    let rest = due_slot policy now_ms slots in
    if not slot.active || not (deadline_reached now_ms slot.deadline_ms)
    then (slot ∷ rest.0, rest.1)
    else if leb policy.max_attempts slot.attempts
    then (
      record slot { active = false } ∷ slots,
      record { action = exhausted; frame = slot.frame; attempts = slot.attempts },
    )
    else (
      record slot {
        attempts = u8 (slot.attempts + 1);
        deadline_ms = u32 (now_ms + policy.timeout_ms);
      }
          ∷ slots,
      record { action = send; frame = slot.frame; attempts = u8 (slot.attempts + 1) },
    )

unfoldable pub next_due : ReliableQueue → ℕ → ReliableQueue × TxDecision
next_due q now_ms =
    let (slots, decision) = due_slot q.policy now_ms q.slots in
    (record q { slots = slots }, decision)

-- The loop of `acknowledge` and of `cancel`: the first matching slot becomes free.
unfoldable pub free_slot : List Slot → ℕ → ℕ → List Slot × Bool
free_slot [] node_id sequence = ([], false)
free_slot (slot ∷ slots) node_id sequence =
    let rest = free_slot slots node_id sequence in
    if matches slot node_id sequence
    then (record slot { active = false } ∷ slots, true)
    else (slot ∷ rest.0, rest.1)

unfoldable pub acknowledge : ReliableQueue → ℕ → ℕ → AckStatus → ReliableQueue × AckResolution
acknowledge q node_id sequence status =
    let (slots, found) = free_slot q.slots node_id sequence in
    (
      record q { slots = slots },
      if found then elim status [ AckStatus.accepted ↦ accepted | _ ↦ rejected ] else not_found,
    )

unfoldable pub cancel : ReliableQueue → ℕ → ℕ → ReliableQueue × Bool
cancel q node_id sequence =
    let (slots, found) = free_slot q.slots node_id sequence in (record q { slots = slots }, found)

unfoldable pub count_active : List Slot → ℕ
count_active [] = 0
count_active (slot ∷ slots) = if slot.active then count_active slots + 1 else count_active slots

unfoldable pub pending_count : ReliableQueue → ℕ
pending_count q = count_active q.slots

unfoldable pub clear_slots : List Slot → List Slot
clear_slots [] = []
clear_slots (slot ∷ slots) = default_slot ∷ clear_slots slots

unfoldable pub clear : ReliableQueue → ReliableQueue
clear q = record q { slots = clear_slots q.slots }
