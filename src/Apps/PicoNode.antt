-- ===== src/Apps/PicoNode.antt =====
-- examples/PicoSdkI2cNode/main.cpp: the same node over the mailbox of the Pico.
pub mod Laws
pub mod Run
use picomesh.Base.{ℕ, ◌+◌, ◌-◌, ◌/◌, ◌%◌, ◌^◌, List, not, none, bit_and}
use picomesh.Base.{◌==◌, leb, if◌then◌else◌, u8, u32}
use picomesh.Frame.{Frame, default_frame}
use picomesh.Ack.{make_ack_frame, accepted, flag_ack_required}
use picomesh.PicoEndpoint.{
  I2cPeripheralEndpoint, Interrupt, new_endpoint, handle_irqs, publish, poll,
}
use picomesh.Apps.HeartbeatNode.{node_id, heartbeat_frame}

-- The global variables, and `last_heartbeat_ms` of `main`.
pub record Node : Type 0 where
  pub endpoint : I2cPeripheralEndpoint
  pub sequence_number : ℕ
  pub last_heartbeat_ms : ℕ

-- A `uint64_t` difference.
abbrev pub sub64 : ℕ → ℕ → ℕ
sub64 a b = (a + 2 ^ 64 - b) % 2 ^ 64

unfoldable pub publish_heartbeat : Node → ℕ → List Interrupt → Node
publish_heartbeat n time_us between = record n {
  endpoint =
      (publish n.endpoint (heartbeat_frame n.sequence_number (u32 (time_us / 1000))) between).0;
  sequence_number = u8 (n.sequence_number + 1);
}

unfoldable pub answer : Node → Frame → List Interrupt → Node
answer n incoming between =
    if not (bit_and incoming.flags flag_ack_required == 0)
    then record n {
      endpoint =
          (publish n.endpoint (make_ack_frame node_id n.sequence_number incoming.sequence accepted)
            between).0;
      sequence_number = u8 (n.sequence_number + 1);
    }
    else n

-- The first part of a round: a heartbeat each second. `uptime_us` is the second reading of the
-- clock.
unfoldable pub beat : Node → ℕ → ℕ → List Interrupt → Node
unfolding publish_heartbeat
beat n time_us uptime_us between =
    let now_ms = time_us / 1000 in
    if leb 1000 (sub64 now_ms n.last_heartbeat_ms)
    then publish_heartbeat (record n { last_heartbeat_ms = now_ms }) uptime_us between
    else n

-- One round of the loop of `main`, with the interrupts that its two calls of `publish` meet, and
-- those that are handled between the two calls.
unfoldable pub round : Node → ℕ → ℕ → List Interrupt → List Interrupt → List Interrupt → Node
round n time_us uptime_us at_beat before_poll at_answer =
    let beaten = beat n time_us uptime_us at_beat in
    let (endpoint, received, incoming, _) =
      poll (handle_irqs beaten.endpoint before_poll).0 default_frame none in
    let polled = record beaten { endpoint = endpoint } in
    if received then answer polled incoming at_answer else polled

-- The globals, and the start of `main`: the first heartbeat.
abbrev pub new_node : Node
new_node = record { endpoint = new_endpoint; sequence_number = 0; last_heartbeat_ms = 0 }

unfoldable pub started : ℕ → List Interrupt → Node
unfolding publish_heartbeat
started uptime_us between = publish_heartbeat new_node uptime_us between
