-- ===== src/ReliableQueue/View/Order.antt =====
-- Calls about different keys commute, up to the order of the slots.
use mathlib.Core.Quot
use mathlib.Core.Quot.{Quot, Quot-set}
use picomesh.Base.{
  ℕ, suc, length, ◌+◌, ◌≤◌, ◌≡◌, inl, inr, refl, sym, ◌∙◌, ap, List, [], ◌∷◌, Bool, true, ◌&&◌,
  Option, arith,
}
use picomesh.Base.{◌==◌, if◌then◌else◌}
use picomesh.ReliableQueue.{ReliableQueue, Slot, max_pending_transmissions, filled, pending_count}
use picomesh.ReliableQueue.Keys.{is_some}
use picomesh.ReliableQueue.Pending.{pending, acknowledge_lem}
use mathlib.Core.HLevel.{→_prop}
use native.Mathlib.Bridge.{le_prop}
use picomesh.ReliableQueue.View.{
  ValidQueue, Same, QueueView, takes, pending-enqueue, count-enqueue, policy-enqueue,
  policy-acknowledge, Update, adds, resolves, step, apply, count_view, node_of, sequence_of, Apart,
}

-- What an update does: whether it is carried out, what then stands under its key, and how the
-- number of pending frames changes.
abbrev hits : Update → ReliableQueue → Bool
hits (adds f fr now) q = takes q f
hits (resolves n s status) q = true

abbrev value : Update → Option Slot
value (adds f fr now) = Option.some (filled f now)
value (resolves n s status) = Option.none

abbrev gained : Update → ReliableQueue → ℕ
gained (adds f fr now) q = if takes q f then 1 else 0
gained (resolves n s status) q = 0

abbrev lost : Update → ReliableQueue → ℕ
lost (adds f fr now) q = 0
lost (resolves n s status) q = if is_some (pending q n s) then 1 else 0

abbrev names : Update → ℕ → ℕ → Bool
names u n s = (node_of u == n) && (sequence_of u == s)

step-keys :
    (u : Update) (a : ValidQueue) (n s : ℕ)
    → pending (step u a).0 n s ≡ (if hits u a.0 && names u n s then value u else pending a.0 n s)
unfolding step
step-keys (adds f fr now) a n s = pending-enqueue a.0 a.1 f now n s
step-keys (resolves m r status) a n s = ground (arith, (acknowledge_lem a.0 m r n s status a.1).1)

step-count :
    (u : Update) (a : ValidQueue)
    → pending_count (step u a).0 + lost u a.0 ≡ pending_count a.0 + gained u a.0
unfolding step
step-count (adds f fr now) a = ground (arith, count-enqueue a.0 a.1 f now)
step-count (resolves n s status) a = ground (arith, (acknowledge_lem a.0 n s n s status a.1).2)

step-policy : (u : Update) (a : ValidQueue) → (step u a).0.policy ≡ a.0.policy
unfolding step
step-policy (adds f fr now) a = policy-enqueue a.0 a.1 f now
step-policy (resolves n s status) a = policy-acknowledge a.0 n s status

step-count-le : (u : Update) (a : ValidQueue) → pending_count (step u a).0 ≤ pending_count a.0 + 1
step-count-le (adds f fr now) a = ground (arith, step-count (adds f fr now) a)
step-count-le (resolves n s status) a = ground (arith, step-count (resolves n s status) a)

own-key :
    (u w : Update) (a : ValidQueue)
    → Apart u w
    → pending (step w a).0 (node_of u) (sequence_of u) ≡ pending a.0 (node_of u) (sequence_of u)
own-key u w a apart = ground (arith, step-keys w a (node_of u) (sequence_of u), apart)

-- With room for both, an update about another key changes nothing for this one.
record Unaffected (u : Update) (q q' : ReliableQueue) : Type 0 where
  same_hit : hits u q' ≡ hits u q
  same_gained : gained u q' ≡ gained u q
  same_lost : lost u q' ≡ lost u q

step-Unaffected :
    (u w : Update) (a : ValidQueue)
    → Apart u w
    → pending_count a.0 + 2 ≤ 8
    → Unaffected u a.0 (step w a).0
step-Unaffected (adds f fr now) w a apart room =
    let own = own-key (adds f fr now) w a apart in
    let le = step-count-le w a in
    record { same_hit = ground arith; same_gained = ground arith; same_lost = refl }
step-Unaffected (resolves n s status) w a apart room =
    let own = own-key (resolves n s status) w a apart in
    record { same_hit = refl; same_gained = refl; same_lost = ground arith }

step-swap :
    (u w : Update) (a : ValidQueue)
    → Apart u w
    → Apart w u
    → pending_count a.0 + 2 ≤ 8
    → Same (step w (step u a)) (step u (step w a))
step-swap u w a apart apart' room =
    let hu = step-Unaffected u w a apart room in
    let hw = step-Unaffected w u a apart' room in
    record {
      keys = λ n s. ground (
        arith,
        apart,
        hu.same_hit,
        hw.same_hit,
        step-keys w (step u a) n s,
        step-keys u (step w a) n s,
        step-keys u a n s,
        step-keys w a n s,
      );
      count = omega (
        arith,
        hu.same_gained,
        hu.same_lost,
        hw.same_gained,
        hw.same_lost,
        step-count w (step u a),
        step-count u (step w a),
        step-count u a,
        step-count w a,
      );
      policy =
          step-policy w (step u a)
          ∙ step-policy u a
          ∙ sym (step-policy u (step w a) ∙ step-policy w a);
    }

Apart-symm : (u w : Update) → Apart u w → Apart w u
Apart-symm u w (inl h) = inl (λ e. h (sym e))
Apart-symm u w (inr h) = inr (λ e. h (sym e))

-- Calls one after the other, from the first.
pub apply_all : List Update → QueueView → QueueView
apply_all [] v = v
apply_all (u ∷ us) v = apply_all us (apply u v)

-- The same calls in another order, in which calls about one key keep theirs.
pub data Reorders : List Update → List Update → Type 0 where
  same : (us : List Update) → Reorders us us
  swaps : (u w : Update) (us : List Update) → Apart u w → Reorders (u ∷ w ∷ us) (w ∷ u ∷ us)
  keeps : (u : Update) {us ws : List Update} → Reorders us ws → Reorders (u ∷ us) (u ∷ ws)
  chains : {us ws xs : List Update} → Reorders us ws → Reorders ws xs → Reorders us xs

apply-swap :
    (u w : Update) (v : QueueView)
    → Apart u w
    → count_view v + 2 ≤ 8
    → apply w (apply u v) ≡ apply u (apply w v)
unfolding apply count_view
apply-swap u w v apart =
    Quot.ind {β = λ v. count_view v + 2 ≤ 8 → apply w (apply u v) ≡ apply u (apply w v)}
      (λ v. →_prop (Quot-set _ _))
      (λ a room. Quot.sound (step-swap u w a apart (Apart-symm u w apart) room)) v

count_view-apply : (u : Update) (v : QueueView) → count_view (apply u v) ≤ count_view v + 1
unfolding apply count_view
count_view-apply u =
    Quot.ind {β = λ v. count_view (apply u v) ≤ count_view v + 1} (λ v. le_prop)
      (λ a. step-count-le u a)

length-Reorders : {us ws : List Update} → Reorders us ws → length us ≡ length ws
length-Reorders (same us) = refl
length-Reorders (swaps u w us apart) = refl
length-Reorders (keeps u r) = ap suc (length-Reorders r)
length-Reorders (chains r t) = length-Reorders r ∙ length-Reorders t

-- In the quotient a reordering makes no difference.
apply_all-Reorders :
    {us ws : List Update} (v : QueueView)
    → Reorders us ws
    → count_view v + length us ≤ max_pending_transmissions
    → apply_all us v ≡ apply_all ws v
unfolding apply_all
apply_all-Reorders v (same us) room = refl
apply_all-Reorders v (swaps u w us apart) room =
    ap (apply_all us) (apply-swap u w v apart (omega arith))
apply_all-Reorders v (keeps u r) room =
    apply_all-Reorders (apply u v) r (omega (arith, count_view-apply u v))
apply_all-Reorders v (chains r t) room =
    apply_all-Reorders v r room ∙ apply_all-Reorders v t (omega (arith, length-Reorders r))

Slot-set : IsSet (Option Slot)
Slot-set = hlevel

pending_view : ℕ → ℕ → QueueView → Option Slot
pending_view n s = Quot.lift Slot-set (λ a. pending a.0 n s) (λ a b h. h.keys n s)

-- The queue after the calls.
pub step_all : List Update → ValidQueue → ValidQueue
step_all [] a = a
step_all (u ∷ us) a = step_all us (step u a)

apply_all-mk :
    (us : List Update) (a : ValidQueue) → apply_all us (Quot.mk a) ≡ Quot.mk (step_all us a)
unfolding apply_all apply step_all
apply_all-mk [] a = refl
apply_all-mk (u ∷ us) a = apply_all-mk us (step u a)

-- On a valid queue with room for as many frames as there are calls, calls of `enqueue`, with
-- frames whose fields fit their C++ types, and of `acknowledge` leave the same slot, or none,
-- pending under every key, and as many in all, when they are made in another order in which the
-- calls about one key keep theirs.
pub step_all-Reorders :
    {us ws : List Update} (a : ValidQueue) (n s : ℕ)
    → Reorders us ws
    → pending_count a.0 + length us ≤ max_pending_transmissions
    → (pending (step_all us a).0 n s ≡ pending (step_all ws a).0 n s)
      × (pending_count (step_all us a).0 ≡ pending_count (step_all ws a).0)
unfolding pending_view count_view
step_all-Reorders {us} {ws} a n s r room =
    let both : ◌≡◌ {A = QueueView} (Quot.mk (step_all us a)) (Quot.mk (step_all ws a)) =
      sym (apply_all-mk us a) ∙ apply_all-Reorders (Quot.mk a) r room ∙ apply_all-mk ws a in
    (ap (pending_view n s) both, ap count_view both)
