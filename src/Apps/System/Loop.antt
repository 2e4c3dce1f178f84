-- ===== src/Apps/System/Loop.antt =====
-- One loop of the command controller, as steps.
use picomesh.Base.{ℕ, List, leb, sub32, if-elim}
use picomesh.Arduino.TwoWire.{TwoWire, IsLawful}
use picomesh.Arduino.Controller.{transport}
use picomesh.Apps.CommandController.{Controller, renew, transmit_due, loop}
use picomesh.Apps.System.{System, Arrives, Reach, here, next, renews, transmits, receives}

module _ {V W : TwoWire} (laws_v : IsLawful V) where
  abbrev at_controller : System V W laws_v → Controller (transport V) → System V W laws_v
  at_controller st c = record st { controller = c }

  -- A loop of the controller goes through the steps of its three parts, if what arrives at its end
  -- is what the node then has to send, or nothing.
  loop-Reach :
      (st : System V W laws_v) (now : ℕ) (padding : List ℕ)
      → Arrives V W laws_v
          (at_controller st
            (transmit_due (transport V) (renew (transport V) st.controller now) now))
          padding
      → Reach V W laws_v st (at_controller st (loop (transport V) st.controller now))
  unfolding loop
  loop-Reach st now padding arrives =
      let renewed = at_controller st (renew (transport V) st.controller now) in
      let sent = at_controller st (transmit_due (transport V) renewed.controller now) in
      let reached : Reach V W laws_v st sent =
        next (next here (renews st now)) (transmits renewed now) in
      if-elim (λ c. Reach V W laws_v st (at_controller st c))
        (leb 20 (sub32 now sent.controller.last_receive_ms))
        (next reached (receives sent now padding arrives)) reached
