-- ===== src/Apps/HeartbeatNode.antt =====
-- examples/ArduinoHeartbeatNode: a peripheral that announces itself and acknowledges commands.
pub mod Laws
pub mod Run
use picomesh.Base.{ℕ, ◌+◌, ◌/◌, ◌^◌, List, Bool, not, Option, none, bit_and}
use picomesh.Base.{◌==◌, leb, if◌then◌else◌, set, u8, u32, sub32}
use picomesh.Frame.{Frame, heartbeat, default_frame}
use picomesh.Ack.{make_ack_frame, accepted, flag_ack_required}
use picomesh.Arduino.TwoWire.{TwoWire}
use picomesh.Arduino.Endpoint.{new_endpoint, WirePeripheralEndpoint, publish, poll}

abbrev pub node_id : ℕ
node_id = 0

-- The frame that `publishHeartbeat` builds: the uptime, its lowest byte first.
unfoldable pub heartbeat_frame : ℕ → ℕ → Frame
heartbeat_frame sequence uptime =
    let payload = set default_frame.payload 0 (u8 uptime) in
    let payload = set payload 1 (u8 (uptime / 2 ^ 8)) in
    let payload = set payload 2 (u8 (uptime / 2 ^ 16)) in
    let payload = set payload 3 (u8 (uptime / 2 ^ 24)) in
    record default_frame {
      type = heartbeat;
      node_id = node_id;
      sequence = sequence;
      payload_length = 4;
      payload = payload;
    }

-- The global variables.
pub record Node : Type 0 where
  pub endpoint : WirePeripheralEndpoint
  pub sequence_number : ℕ
  pub last_heartbeat_ms : ℕ

unfoldable pub publish_heartbeat : Node → ℕ → Node
publish_heartbeat n uptime = record n {
  endpoint = (publish n.endpoint (heartbeat_frame n.sequence_number uptime)).0;
  sequence_number = u8 (n.sequence_number + 1);
}

abbrev pub new_node : Node
new_node = record { endpoint = new_endpoint; sequence_number = 0; last_heartbeat_ms = 0 }

-- What `setup` does to the globals, besides the start of the endpoint.
unfoldable pub setup : ℕ → Node
unfolding publish_heartbeat
setup uptime = publish_heartbeat new_node uptime

-- The end of `loop`: an incoming frame that asks for it is acknowledged.
unfoldable pub answer : Node → Frame → Node
answer n incoming =
    if not (bit_and incoming.flags flag_ack_required == 0)
    then record n {
      endpoint =
          (publish n.endpoint
            (make_ack_frame node_id n.sequence_number incoming.sequence accepted)).0;
      sequence_number = u8 (n.sequence_number + 1);
    }
    else n

-- The beginning of `loop`: a heartbeat each second. `uptime` is the second reading of the clock.
unfoldable pub beat : Node → ℕ → ℕ → Node
beat n now uptime =
    if leb 1000 (sub32 now n.last_heartbeat_ms)
    then publish_heartbeat (record n { last_heartbeat_ms = now }) uptime
    else n

module _ (W : TwoWire) where
  unfoldable pub loop : Node → ℕ → ℕ → List (W.State × ℕ) → Node
  loop n now uptime between =
      let beaten = beat n now uptime in
      let (endpoint, received, incoming, _) = poll W beaten.endpoint default_frame none between in
      let polled = record beaten { endpoint = endpoint } in
      if received then answer polled incoming else polled
