-- ===== src/ReliableQueue/Pending.antt =====
-- The queue as a bounded map from node id and sequence: what each call does to it.
use picomesh.Base.{ℕ, ◌+◌, ◌≤◌, ◌≡◌, ◌≢◌, ◌⊎◌, ◌&&◌, Option, arith}
use picomesh.Base.{ltb, ◌==◌, ◌||◌, if◌then◌else◌}
use picomesh.Frame.{Frame, max_payload_size}
use picomesh.Ack.{AckStatus}
use picomesh.ReliableQueue.{
  Slot, ReliableQueue, QueueResult, queued, full, invalid, not_found, accepted, rejected,
  max_pending_transmissions, filled, enqueue, acknowledge, cancel, pending_count,
}
use picomesh.ReliableQueue.Keys.{
  find_slot, is_some, has_pending-find_slot, count_active-le, fill_slot-Fills, find_slot-fill_slot,
  free_slot-has_pending, count_active-free_slot, find_slot-free_slot,
}
use picomesh.ReliableQueue.Invariant.{IsValid}

-- What is pending for a node id and a sequence.
abbrev pub pending : ReliableQueue → ℕ → ℕ → Option Slot
pending q n s = find_slot q.slots n s

pub pending_count-le : (q : ReliableQueue) → IsValid q → pending_count q ≤ max_pending_transmissions
unfolding pending_count
pending_count-le q v = omega (arith, count_active-le q.slots, v.size)

-- The result that `enqueue` owes for a frame.
abbrev pub owed : ReliableQueue → Frame → QueueResult
owed q f =
    if ltb max_payload_size f.payload_length || is_some (pending q f.node_id f.sequence)
    then invalid
    else if pending_count q == max_pending_transmissions
    then full
    else queued

-- On a valid queue, `enqueue` reports invalid if the payload is too long or the key is pending,
-- else full if eight frames are pending, else queued. If it reports queued, the frame is pending
-- under its key, due at once, every other key is as before, and the count is one more; or else
-- the queue is unchanged.
pub enqueue_lem :
    (q : ReliableQueue) (f : Frame) (now n s : ℕ)
    → IsValid q
    → ((enqueue q f now).1 ≡ owed q f)
      × (((owed q f ≡ queued)
            × (pending (enqueue q f now).0 n s ≡ (
                if (f.node_id == n) && (f.sequence == s)
                then Option.some (filled f now)
                else pending q n s))
            × (pending_count (enqueue q f now).0 ≡ pending_count q + 1))
          ⊎ ((owed q f ≢ queued) × ((enqueue q f now).0 ≡ q)))
unfolding enqueue pending_count
enqueue_lem q f now n s v = ground (
  arith,
  has_pending-find_slot q.slots f.node_id f.sequence,
  fill_slot-Fills q.slots f now,
  find_slot-fill_slot q.slots f now n s,
  v.size,
)

-- On a valid queue, `acknowledge` finds a frame exactly if one is pending under the key, reports
-- accepted or rejected from the status, removes that frame and no other, and lowers the count by
-- one if it found one.
pub acknowledge_lem :
    (q : ReliableQueue) (n s m r : ℕ) (status : AckStatus)
    → IsValid q
    → ((acknowledge q n s status).1 ≡ (
        if is_some (pending q n s)
        then elim status [ AckStatus.accepted ↦ accepted | _ ↦ rejected ]
        else not_found))
      × (pending (acknowledge q n s status).0 m r
          ≡ (if (m == n) && (r == s) then Option.none else pending q m r))
      × (pending_count (acknowledge q n s status).0 + (if is_some (pending q n s) then 1 else 0)
          ≡ pending_count q)
unfolding acknowledge pending_count
acknowledge_lem q n s m r status v = ground (
  arith,
  has_pending-find_slot q.slots n s,
  free_slot-has_pending q.slots n s,
  find_slot-free_slot q.slots n s m r v.unique,
  count_active-free_slot q.slots n s,
)

-- On a valid queue, `cancel` reports whether a frame is pending under the key, removes that frame
-- and no other, and lowers the count by one if it found one.
cancel_lem :
    (q : ReliableQueue) (n s m r : ℕ)
    → IsValid q
    → ((cancel q n s).1 ≡ is_some (pending q n s))
      × (pending (cancel q n s).0 m r
          ≡ (if (m == n) && (r == s) then Option.none else pending q m r))
      × (pending_count (cancel q n s).0 + (if is_some (pending q n s) then 1 else 0)
          ≡ pending_count q)
unfolding cancel pending_count
cancel_lem q n s m r v = ground (
  arith,
  has_pending-find_slot q.slots n s,
  free_slot-has_pending q.slots n s,
  find_slot-free_slot q.slots n s m r v.unique,
  count_active-free_slot q.slots n s,
)
