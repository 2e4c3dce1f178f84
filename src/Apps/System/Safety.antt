-- ===== src/Apps/System/Safety.antt =====
-- No command leaves the queue of the controller unheard before its attempts are spent.
use mathlib.Core.List.{Mem}
use picomesh.Base.{ℕ, ◌≡◌, ◌≢◌, ◌⊎◌, inl, inr, refl, sym, ◌∙◌, ap, subst, List, ◌&&◌, Option, arith}
use picomesh.Base.{◌==◌, leb, sub32, if-elim}
use picomesh.Ack.{accepted}
use picomesh.ReliableQueue.{
  ReliableQueue, Slot, new_queue, enqueue, next_due, acknowledge, pending_count, count_active,
}
use picomesh.ReliableQueue.Invariant.{IsValid}
use picomesh.ReliableQueue.Due.{due_slot-Due}
use picomesh.ReliableQueue.Lost.{find_slot-IsSlot, Due-lost}
use picomesh.ReliableQueue.Pending.{pending, enqueue_lem, acknowledge_lem}
use picomesh.Arduino.TwoWire.{TwoWire, IsLawful}
use picomesh.Arduino.Controller.{WireControllerTransport, transport}
use picomesh.Apps.HeartbeatNode.Run.{Speaks, setup-Speaks, loop-Speaks, receive_from_isr-Speaks}
use picomesh.Apps.CommandController.{
  Controller, command_frame, new_controller, enqueue_command, renew, receive_acknowledgement,
}
use picomesh.Apps.CommandController.Laws.{
  IsSafe, new_controller-IsSafe, enqueue_command-IsSafe, renew-IsSafe, transmit_due-IsSafe,
  transmit_due-queue, receive_acknowledgement-IsSafe,
}
use picomesh.Apps.System.{
  System, initial, Arrives, Step, hears, answers, renews, transmits, receives, Reach, here, next,
}
use picomesh.Apps.System.Resolution.{Resolved, nothing-Resolved, IsOwn-Resolved}

-- The queue of a controller after it has taken up a command, or not.
renewed :
    {V : TwoWire} (c : Controller (transport V)) (now : ℕ)
    → ((renew (transport V) c now).queue ≡ c.queue)
      ⊎ ((renew (transport V) c now).queue
          ≡ (enqueue c.queue (command_frame c.sequence_number) now).0)
unfolding renew enqueue_command
renewed {V} c now =
    if-elim
      (λ (c' : Controller (transport V)).
        (c'.queue ≡ c.queue)
        ⊎ (c'.queue ≡ (enqueue c.queue (command_frame c.sequence_number) now).0))
      ((pending_count c.queue == 0) && leb 5000 (sub32 now c.last_command_ms)) (inr refl) (inl refl)

abbrev attempt_limit : ReliableQueue → ℕ
attempt_limit q = q.policy.max_attempts

-- Neither a call that adds a frame nor one that removes a frame changes the policy.
limit-enqueue :
    (q : ReliableQueue) (now s : ℕ)
    → attempt_limit (enqueue q (command_frame s) now).0 ≡ attempt_limit q
unfolding enqueue
limit-enqueue q now s = ground arith

limit-acknowledge :
    (q : ReliableQueue) (a : ℕ) → attempt_limit (acknowledge q 0 a accepted).0 ≡ attempt_limit q
unfolding acknowledge
limit-acknowledge q a = refl

limit-next_due : (q : ReliableQueue) (now : ℕ) → attempt_limit (next_due q now).0 ≡ attempt_limit q
unfolding next_due
limit-next_due q now = refl

-- A frame that stops to be pending after an acknowledgement is the one acknowledged.
acknowledge-lost :
    (q : ReliableQueue) (a m r : ℕ) {x : Slot}
    → IsValid q
    → pending q m r ≡ Option.some x
    → pending (acknowledge q 0 a accepted).0 m r ≡ Option.none
    → (m ≡ 0) × (r ≡ a)
acknowledge-lost q a m r v before after =
    ground (arith, before, after, (acknowledge_lem q 0 a m r accepted v).1)

enqueue-lost :
    (q : ReliableQueue) (s now m r : ℕ) {x : Slot}
    → IsValid q
    → pending q m r ≡ Option.some x
    → pending (enqueue q (command_frame s) now).0 m r ≢ Option.none
enqueue-lost q s now m r v before after =
    ground (arith, before, after, enqueue_lem q (command_frame s) now m r v)

next_due-lost :
    (q : ReliableQueue) (now m r : ℕ) {x : Slot}
    → IsValid q
    → pending q m r ≡ Option.some x
    → pending (next_due q now).0 m r ≡ Option.none
    → x.attempts ≡ q.policy.max_attempts
unfolding next_due
next_due-lost q now m r {x} v before after = omega (
  arith,
  Due-lost m r x (due_slot-Due q.policy now q.slots v.unique) before after,
  (find_slot-IsSlot q.policy q.slots m r x v.slots_ok before).0,
)

module _ {V W : TwoWire} (laws_v : IsLawful V) (laws_w : IsLawful W) where
  -- Both sketches are safe, commands are sent three times, and the node is to send a heartbeat or
  -- an acknowledgement.
  pub record Holds (st : System V W laws_v) : Type 0 where
    pub controller : IsSafe (transport V) st.controller
    pub limit : attempt_limit st.controller.queue ≡ 3
    pub node : Speaks st.answered st.node

  Arrives-Resolved :
      {st : System V W laws_v} (now : ℕ) (padding : List ℕ)
      → Holds st
      → Arrives V W laws_v st padding
      → Resolved V laws_v (record st.controller { last_receive_ms = now }) st.answered
  Arrives-Resolved {st} now padding h (inl whole) =
      IsOwn-Resolved V laws_v (record st.controller { last_receive_ms = now }) padding h.node.own
        whole
  Arrives-Resolved {st} now padding h (inr lost) =
      nothing-Resolved V laws_v (record st.controller { last_receive_ms = now }) st.answered lost

  limit-renew :
      (c : Controller (transport V)) (now : ℕ)
      → attempt_limit (renew (transport V) c now).queue ≡ attempt_limit c.queue
  limit-renew c now = elim (renewed c now) [
    | inl e ↦ ap attempt_limit e
    | inr e ↦ ap attempt_limit e ∙ limit-enqueue c.queue now c.sequence_number
  ]

  limit-Resolved :
      (c : Controller (transport V)) {answered : List ℕ}
      → Resolved V laws_v c answered
      → attempt_limit (receive_acknowledgement (transport V) c).queue ≡ attempt_limit c.queue
  limit-Resolved c (inl same) = ap attempt_limit same
  limit-Resolved c (inr (a, heard, e)) = ap attempt_limit e ∙ limit-acknowledge c.queue a

  Step-Holds : {st st' : System V W laws_v} → Step V W laws_v st st' → Holds st → Holds st'
  Step-Holds (hears st s count) h = record {
    controller = h.controller;
    limit = h.limit;
    node = receive_from_isr-Speaks W laws_w s count h.node;
  }
  Step-Holds (answers st now uptime between) h = record {
    controller = h.controller;
    limit = h.limit;
    node = loop-Speaks W laws_w now uptime between h.node;
  }
  Step-Holds (renews st now) h = record {
    controller = renew-IsSafe (transport V) now h.controller;
    limit = limit-renew st.controller now ∙ h.limit;
    node = h.node;
  }
  Step-Holds (transmits st now) h = record {
    controller = transmit_due-IsSafe (transport V) now h.controller;
    limit =
        ap attempt_limit (transmit_due-queue (transport V) st.controller now).0
        ∙ limit-next_due st.controller.queue now
        ∙ h.limit;
    node = h.node;
  }
  Step-Holds (receives st now padding arrives) h = record {
    controller =
        receive_acknowledgement-IsSafe (transport V)
          (record { single = h.controller.single; sequence_byte = h.controller.sequence_byte });
    limit =
        limit-Resolved (record st.controller { last_receive_ms = now })
          (Arrives-Resolved now padding h arrives)
        ∙ h.limit;
    node = h.node;
  }

  initial-Holds :
      (t : WireControllerTransport V) (now uptime : ℕ) → Holds (initial V W laws_v t now uptime)
  unfolding new_queue pending_count count_active enqueue_command
  initial-Holds t now uptime = record {
    controller =
        enqueue_command-IsSafe (transport V) now (new_controller-IsSafe (transport V) t) refl;
    limit = limit-enqueue (new_controller (transport V) t).queue now 0;
    node = setup-Speaks uptime;
  }

  Reach-Holds : {st st' : System V W laws_v} → Holds st → Reach V W laws_v st st' → Holds st'
  Reach-Holds h here = h
  Reach-Holds h (next r step) = Step-Holds step (Reach-Holds h r)

  -- The key was acknowledged by the node, or the frame has been sent three times.
  abbrev Accounted : List ℕ → ℕ → ℕ → Slot → Type 0
  Accounted answered m r x = ((m ≡ 0) × Mem r answered) ⊎ (x.attempts ≡ 3)

  Resolved-lost :
      {answered : List ℕ} (c : Controller (transport V)) (m r : ℕ) (x : Slot)
      → IsValid c.queue
      → Resolved V laws_v c answered
      → pending c.queue m r ≡ Option.some x
      → pending (receive_acknowledgement (transport V) c).queue m r ≡ Option.none
      → Accounted answered m r x
  Resolved-lost c m r x v (inl same) before after =
      absurd (ground (arith, before, after, ap (λ q. pending q m r) same))
  Resolved-lost {answered} c m r x v (inr (a, heard, e)) before after =
      let key = acknowledge-lost c.queue a m r v before (sym (ap (λ q. pending q m r) e) ∙ after) in
      inl (key.0, subst (λ b. Mem b answered) (sym key.1) heard)

  Step-lost :
      {st st' : System V W laws_v} (m r : ℕ) (x : Slot)
      → Step V W laws_v st st'
      → Holds st
      → pending st.controller.queue m r ≡ Option.some x
      → pending st'.controller.queue m r ≡ Option.none
      → Accounted st.answered m r x
  Step-lost m r x (hears st s count) h before after = absurd (ground (arith, before, after))
  Step-lost m r x (answers st now uptime between) h before after =
      absurd (ground (arith, before, after))
  Step-lost m r x (renews st now) h before after = elim (renewed st.controller now) [
    | inl same ↦ absurd (ground (arith, before, after, ap (λ q. pending q m r) same))
    | inr e ↦ absurd (
        enqueue-lost st.controller.queue st.controller.sequence_number now m r
          h.controller.single.valid before (sym (ap (λ q. pending q m r) e) ∙ after))
  ]
  Step-lost m r x (transmits st now) h before after = inr (
      next_due-lost st.controller.queue now m r h.controller.single.valid before (
        sym (ap (λ q. pending q m r) (transmit_due-queue (transport V) st.controller now).0)
        ∙ after)
      ∙ h.limit)
  Step-lost m r x (receives st now padding arrives) h before after =
      Resolved-lost (record st.controller { last_receive_ms = now }) m r x h.controller.single.valid
        (Arrives-Resolved now padding h arrives) before after

  -- On two lawful buses, after both functions `setup` and any steps in which any bytes may reach
  -- the node, the node runs its loop with any transfers meanwhile, and the controller renews,
  -- transmits and receives at any times, each reception getting what the node then has to send,
  -- with padding, or nothing: if a step takes a pending command from the queue of the controller,
  -- its key is that of node 0 and a sequence that the node has acknowledged, or it had been sent
  -- three times.
  pub Step-pending :
      {st st' : System V W laws_v} (t : WireControllerTransport V) (now uptime m r : ℕ) (x : Slot)
      → Reach V W laws_v (initial V W laws_v t now uptime) st
      → Step V W laws_v st st'
      → pending st.controller.queue m r ≡ Option.some x
      → pending st'.controller.queue m r ≡ Option.none
      → ((m ≡ 0) × Mem r st.answered) ⊎ (x.attempts ≡ 3)
  Step-pending t now uptime m r x reach step before after =
      Step-lost m r x step (Reach-Holds (initial-Holds t now uptime) reach) before after
