-- ===== src/ReliableQueue/View.antt =====
-- The queue up to the order of its slots: a quotient, to which the operations descend.
pub mod Order
use mathlib.Core.Quot
use mathlib.Core.Quot.{Quot, Quot-set}
use native.Mathlib.Nat.{ℕ_set}
use picomesh.Base.{
  ℕ, ◌+◌, ◌≤◌, ◌≡◌, ◌≢◌, ◌⊎◌, inl, inr, refl, sym, ◌∙◌, ap, List, [], ◌∷◌, Bool, true, not, ◌&&◌,
  Option, arith,
}
use picomesh.Base.{◌==◌, ltb, leb, if◌then◌else◌}
use picomesh.Frame.{Frame, IsFrame, max_payload_size}
use picomesh.Ack.{AckStatus}
use picomesh.ReliableQueue.{
  ReliableQueue, Slot, RetryPolicy, max_pending_transmissions, filled, enqueue, acknowledge,
  pending_count,
}
use picomesh.ReliableQueue.Keys.{is_some}
use picomesh.ReliableQueue.Invariant.{IsValid, enqueue-IsValid, acknowledge-IsValid}
use picomesh.ReliableQueue.Pending.{pending, pending_count-le, enqueue_lem, acknowledge_lem}

abbrev pub ValidQueue : Type 0
ValidQueue = (q : ReliableQueue) × IsValid q

-- The same frames are pending with the same attempts and deadlines, in whatever slots.
pub record Same (a b : ValidQueue) : Type 0 where
  pub keys : (n s : ℕ) → pending a.0 n s ≡ pending b.0 n s
  pub count : pending_count a.0 ≡ pending_count b.0
  pub policy : a.0.policy ≡ b.0.policy

abbrev pub QueueView : Type 0
QueueView = Quot Same

-- A frame is taken: its payload fits, its key is free, and there is room.
abbrev pub takes : ReliableQueue → Frame → Bool
takes q f =
    leb f.payload_length max_payload_size
    && not (is_some (pending q f.node_id f.sequence))
    && ltb (pending_count q) max_pending_transmissions

abbrev is_key : Frame → ℕ → ℕ → Bool
is_key f n s = (f.node_id == n) && (f.sequence == s)

module _ (q : ReliableQueue) (v : IsValid q) (f : Frame) (now : ℕ) where
  pub pending-enqueue :
      (n s : ℕ)
      → pending (enqueue q f now).0 n s
        ≡ (if takes q f && is_key f n s then Option.some (filled f now) else pending q n s)
  pending-enqueue n s = ground (arith, enqueue_lem q f now n s v, pending_count-le q v)

  pub count-enqueue :
      pending_count (enqueue q f now).0
      ≡ (if takes q f then pending_count q + 1 else pending_count q)
  count-enqueue = ground (arith, enqueue_lem q f now 0 0 v, pending_count-le q v)

  pub policy-enqueue : (enqueue q f now).0.policy ≡ q.policy
  unfolding enqueue
  policy-enqueue = ground arith

enqueue-Same :
    (f : Frame) (now : ℕ) (fr : IsFrame f) (a b : ValidQueue)
    → Same a b
    → Same
        ((enqueue a.0 f now).0, enqueue-IsValid f now fr a.1)
        ((enqueue b.0 f now).0, enqueue-IsValid f now fr b.1)
enqueue-Same f now fr a b h = record {
  keys = λ n s. ground (
    arith,
    pending-enqueue a.0 a.1 f now n s,
    pending-enqueue b.0 b.1 f now n s,
    h.keys n s,
    h.keys f.node_id f.sequence,
    h.count,
  );
  count = ground (
    arith,
    count-enqueue a.0 a.1 f now,
    count-enqueue b.0 b.1 f now,
    h.keys f.node_id f.sequence,
    h.count,
  );
  policy = policy-enqueue a.0 a.1 f now ∙ h.policy ∙ sym (policy-enqueue b.0 b.1 f now);
}

pub policy-acknowledge :
    (q : ReliableQueue) (n s : ℕ) (status : AckStatus)
    → (acknowledge q n s status).0.policy ≡ q.policy
unfolding acknowledge
policy-acknowledge q n s status = refl

acknowledge-Same :
    (n s : ℕ) (status : AckStatus) (a b : ValidQueue)
    → Same a b
    → Same
        ((acknowledge a.0 n s status).0, acknowledge-IsValid n s status a.1)
        ((acknowledge b.0 n s status).0, acknowledge-IsValid n s status b.1)
acknowledge-Same n s status a b h = record {
  keys = λ m r. ground (
    arith,
    (acknowledge_lem a.0 n s m r status a.1).1,
    (acknowledge_lem b.0 n s m r status b.1).1,
    h.keys m r,
  );
  count = ground (
    arith,
    (acknowledge_lem a.0 n s n s status a.1).2,
    (acknowledge_lem b.0 n s n s status b.1).2,
    h.keys n s,
    h.count,
  );
  policy = policy-acknowledge a.0 n s status ∙ h.policy ∙ sym (policy-acknowledge b.0 n s status);
}

-- A call that adds a frame or resolves one.
pub data Update : Type 0 where
  adds : (f : Frame) → IsFrame f → ℕ → Update
  resolves : ℕ → ℕ → AckStatus → Update

pub step : Update → ValidQueue → ValidQueue
step (adds f fr now) a = ((enqueue a.0 f now).0, enqueue-IsValid f now fr a.1)
step (resolves n s status) a = ((acknowledge a.0 n s status).0, acknowledge-IsValid n s status a.1)

step-Same : (u : Update) (a b : ValidQueue) → Same a b → Same (step u a) (step u b)
unfolding step
step-Same (adds f fr now) a b h = enqueue-Same f now fr a b h
step-Same (resolves n s status) a b h = acknowledge-Same n s status a b h

pub apply : Update → QueueView → QueueView
apply u = Quot.lift Quot-set (λ a. Quot.mk (step u a)) (λ a b h. Quot.sound (step-Same u a b h))

pub count_view : QueueView → ℕ
count_view = Quot.lift ℕ_set (λ a. pending_count a.0) (λ a b h. h.count)

-- The two calls are about different keys.
abbrev pub node_of : Update → ℕ
node_of (adds f fr now) = f.node_id
node_of (resolves n s status) = n

abbrev pub sequence_of : Update → ℕ
sequence_of (adds f fr now) = f.sequence
sequence_of (resolves n s status) = s

abbrev pub Apart : Update → Update → Type 0
Apart u w = (node_of u ≢ node_of w) ⊎ (sequence_of u ≢ sequence_of w)
