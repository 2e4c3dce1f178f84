-- ===== src/Apps/Polling.antt =====
-- examples/ArduinoHeartbeatController and examples/ArduinoMultiNodeController: controllers that
-- poll their nodes and keep the registry.
pub mod Laws
use picomesh.Base.{ℕ, Bool, true, false, not, some, replicate}
use picomesh.Base.{ltb, if◌then◌else◌, sub32}
use picomesh.Frame.{decode_frame, is_ok, max_encoded_frame_size}
use picomesh.NodeRegistry
use picomesh.NodeRegistry.{NodeRegistry, refresh}
use picomesh.Arduino.TwoWire.{TwoWire}
use picomesh.Arduino.Controller.{WireControllerTransport, receive}

module _ (W : TwoWire) where
  -- The bus that all transports of a sketch share, the registry, and whether a frame was valid.
  unfoldable pub poll_node : W.State → ℕ → NodeRegistry → ℕ → W.State × NodeRegistry × Bool
  poll_node bus address registry now =
      let bytes = replicate max_encoded_frame_size 0 in
      let (transport, buffer, count) =
        receive W (record { wire = bus; address = address }) (some bytes) max_encoded_frame_size in
      let decoded = decode_frame buffer count in
      if not (is_ok decoded) then (transport.wire, registry, false) else (
        transport.wire,
        (NodeRegistry.observe registry decoded.frame.node_id decoded.frame.sequence now).0,
        true,
      )

  -- The global variables of either sketch.
  pub record Controller : Type 0 where
    pub bus : W.State
    pub registry : NodeRegistry
    pub last_poll_ms : ℕ

  -- `loop` of the heartbeat controller, for the node at 0x42.
  unfoldable pub heartbeat_loop : Controller → ℕ → Controller
  unfolding poll_node
  heartbeat_loop c now =
      if ltb (sub32 now c.last_poll_ms) 500
      then c
      else let polled = poll_node c.bus 0x42 c.registry now in
        record { bus = polled.0; registry = refresh polled.1 now; last_poll_ms = now }

  -- `loop` of the multi-node controller, for the nodes at 0x42 and 0x43.
  unfoldable pub multi_node_loop : Controller → ℕ → Controller
  unfolding poll_node
  multi_node_loop c now =
      if ltb (sub32 now c.last_poll_ms) 500
      then c
      else let first = poll_node c.bus 0x42 c.registry now in
        let second = poll_node first.0 0x43 first.1 now in
        record { bus = second.0; registry = refresh second.1 now; last_poll_ms = now }
