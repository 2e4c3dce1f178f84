-- ===== src/Apps/System.antt =====
-- The controller of examples/ArduinoReliableCommandController and the node of
-- examples/ArduinoHeartbeatNode on one bus that loses transfers, step by step.
pub mod Resolution
pub mod Safety
mod Loop
use picomesh.Base.{ℕ, ◌≡◌, ◌⊎◌, List, [], ◌++◌}
use picomesh.Arduino.TwoWire.{TwoWire, IsLawful}
use picomesh.Arduino.Controller.{WireControllerTransport, transport}
use picomesh.Arduino.Controller.Laws.{delivered}
use picomesh.Arduino.Endpoint.{receive_from_isr}
use picomesh.Arduino.Endpoint.Exchange.{outgoing}
use picomesh.Apps.HeartbeatNode.{Node, setup, loop}
use picomesh.Apps.HeartbeatNode.Run.{acknowledged}
use picomesh.Apps.CommandController.{
  Controller, new_controller, enqueue_command, renew, transmit_due, receive_acknowledgement,
}

-- `V` is the Wire library on the board of the controller, `W` on that of the node.
module _ (V W : TwoWire) (laws_v : IsLawful V) where
  -- The globals of both sketches, and the sequences that the node has acknowledged so far.
  pub record System : Type 0 where
    pub controller : Controller (transport V)
    pub node : Node
    pub answered : List ℕ

  -- After both functions `setup`.
  abbrev pub initial : WireControllerTransport V → ℕ → ℕ → System
  initial t now uptime = record {
    controller = enqueue_command (transport V) (new_controller (transport V) t) now;
    node = setup uptime;
    answered = [];
  }

  -- The bytes that the controller gets when it next asks: what the node then has to send, with
  -- padding, or nothing.
  abbrev pub Arrives : System → List ℕ → Type 0
  Arrives st padding =
      (delivered V laws_v st.controller.transport 40 ≡ outgoing st.node.endpoint ++ padding)
      ⊎ (delivered V laws_v st.controller.transport 40 ≡ [])

  -- One step of either board: any bytes reach the node; the node runs its loop, with any
  -- transfers during it; and the three parts of the loop of the controller.
  pub data Step : System → System → Type 0 where
    hears :
        (st : System) (s : W.State) (count : ℕ)
        → Step st (record st {
          node = record st.node { endpoint = (receive_from_isr W s st.node.endpoint count).1 };
        })
    answers :
        (st : System) (now uptime : ℕ) (between : List (W.State × ℕ))
        → Step st (record st {
          node = loop W st.node now uptime between;
          answered = acknowledged W st.node now uptime between ++ st.answered;
        })
    renews :
        (st : System) (now : ℕ)
        → Step st (record st { controller = renew (transport V) st.controller now })
    transmits :
        (st : System) (now : ℕ)
        → Step st (record st { controller = transmit_due (transport V) st.controller now })
    receives :
        (st : System) (now : ℕ) (padding : List ℕ)
        → Arrives st padding
        → Step st (record st {
          controller =
              receive_acknowledgement
                (transport V)
                (record st.controller { last_receive_ms = now });
        })

  pub data Reach (st : System) : System → Type 0 where
    here : Reach st st
    next : {st' st'' : System} → Reach st st' → Step st' st'' → Reach st st''
