-- ===== src/Lib.antt =====
-- PicoMesh, a fixed-capacity messaging library for small boards: frames with a checksum on byte
-- streams and on I2C transfers, liveness of nodes, sequence numbers, and a queue that retries
-- until a frame is acknowledged.
--
-- Parts of the program, and the files that model them:
--
-- * include/picomesh/checksum.h, src/checksum.cpp: Checksum. `checksum8` and `verify_checksum8`
--   keep their names. Checksum.Laws relates both to the sum of the bytes modulo 256.
-- * include/picomesh/frame.h, src/frame.cpp: Frame. `encode_frame`, the two overloads of
--   `decode_frame` (the one for an `EncodedFrame` is `decode_encoded`) and
--   `frame_length_from_prefix`. Frame.Wire has the wire format as a list of bytes, against which
--   Frame.Decode, Frame.Accepted, Frame.Prefix and Frame.Corruption state what the codec does;
--   Frame.Result is about what is returned on any input, Frame.Buffers about copies of frames.
--   The codec calls the checksum.
-- * include/picomesh/stream_decoder.h, src/stream_decoder.cpp: StreamDecoder. The class is a
--   record of its three fields; `feed` returns the new decoder with its result. The body of
--   `feed` is cut in three: `feed` up to the stored byte, `check_header`, and `complete`, which
--   calls the strict decoder. StreamDecoder.Step has the step of `feed` as a data type, and
--   Invariant, Delivery, Stream and Recovery what follows for one byte and for streams.
-- * include/picomesh/node_registry.h, src/node_registry.cpp: NodeRegistry. Two arrays of 32 and
--   the timeout. View, Timeout and Count state the laws.
-- * include/picomesh/sequence_tracker.h, src/sequence_tracker.cpp: SequenceTracker. Two arrays of
--   32; View has the abstract view of one optional sequence for each node, Order the arithmetic
--   modulo 256.
-- * include/picomesh/reliability.h, src/reliability.cpp: Ack (acknowledgement frames) and
--   ReliableQueue. The eight slots are a list, and a loop over them a recursion on the list.
--   ReliableQueue.Pending has the abstract view of the queue as a map from keys to slots,
--   ReliableQueue.View the quotient by the order of the slots.
-- * ports/pico-sdk/picomesh_pico_transport.h and .cpp, class I2cPeripheralEndpoint: PicoEndpoint.
--   `publish`, `poll` and `handle_irq` on a record of the mailbox. The status register and a
--   received byte are the argument of `handle_irq`, the byte for the controller is its result;
--   the reads that clear an interrupt act on the hardware alone. `publish` takes the interrupts
--   handled between its copy and its critical section, since the handler neither reads nor
--   writes the buffer being copied to. Invariant, Buffers, Interrupts and Reachable have the
--   invariant, Mailbox, Reception and Overflow what is received, Outgoing what is sent. The
--   endpoint calls the codec.
-- * include/picomesh/transport.h, the interface: Transport. A record of the two operations, and
--   the promise of the interface as the record IsBounded; the three transports below fill both.
-- * src/arduino/wire_transport.h and .cpp: Arduino. The Wire library is the parameter TwoWire of
--   Arduino.TwoWire, with its documented receive buffer as IsLawful and its documented sending as
--   Delivers: `endTransmission` returns 0 exactly if the receiver has acknowledged all that was
--   queued, and a transmission so delivered is kept as a ghost. Arduino.Controller is the
--   class WireControllerTransport, Arduino.Endpoint the class WirePeripheralEndpoint: `publish`,
--   `poll` and the two interrupt handlers, with the transfers that arrive inside `poll` as an
--   argument of it; Arduino.Active has its `begin` and static callbacks, which go to the one
--   active object and to the bus of its `wire_`, with the objects and the buses by their
--   addresses. Both classes call the codec.
-- * ports/pico-sdk/picomesh_pico_transport.h and .cpp, classes I2cControllerTransport and
--   UartTransport: PicoTransport, over the parameter PicoSdk of PicoTransport.Sdk.
--   PicoTransport.Slots has `begin` and the static handlers of I2cPeripheralEndpoint.
-- * examples/, the sketches: Apps. HeartbeatNode is ArduinoHeartbeatNode, PicoNode is
--   PicoSdkI2cNode, Polling is ArduinoHeartbeatController and ArduinoMultiNodeController,
--   CommandController is ArduinoReliableCommandController. The global variables of a sketch are a
--   record, and `loop` is a function of it and of the readings of the clock. Apps.Exchange follows
--   one command from the command controller to the node, and its answer back, through the calls
--   of Wire on either side, and Apps.System makes a step relation of
--   both, with what the node has acknowledged so far as a ghost; a transfer may reach the node
--   with any bytes, and the controller gets what the node has to send, or nothing. MalformedLink,
--   LossyLink and HostExamples are the programs for the host, each `main` a function of the frame
--   it builds; the loop of the lossy link has fuel.
-- * include/picomesh/version.h, the version constants: Version.
-- * tests/fuzz_frame_decoder.cpp, the fuzz target as a function of its input: Fuzz.
--
-- Base holds what they share: Boolean tests, arrays as lists, `std::copy_n`, and words. Tests has
-- runs on concrete inputs.
--
-- Conventions. A `uint8_t` or `uint32_t` is a natural number, and every operation that can leave
-- the range is followed by its remainder; where a law needs an argument to be in the range of its
-- type, that is a hypothesis of it. A method that changes its object takes the state and returns
-- the new one, with its result if it has one. A `const uint8_t*` is null or the list of the bytes
-- from there on. A range-for is a recursion on the list, and a loop on an index from 0 to 32 has
-- the number of rounds left as its argument, called with 32, so none runs out before its end. An
-- `enum class` over `uint8_t` that the codec casts from a byte (`MessageType`) is that byte.
--
-- A loop on what a library says (`while (wire_->available())`) has fuel: the number of bytes that
-- are available when it starts, or the room that is left, which its own test also bounds.
--
-- Not modelled: the set-up of pins and buses in the sketches; the code of the Wire library and of
-- the Pico SDK, which the repository does not hold; output to the terminal and the serial port; the
-- unit tests, the scripts and the build.
pub mod Base
pub mod Checksum
pub mod Frame
pub mod StreamDecoder
pub mod NodeRegistry
pub mod SequenceTracker
pub mod Ack
pub mod ReliableQueue
pub mod Apps
pub mod Arduino
pub mod Fuzz
pub mod PicoEndpoint
pub mod PicoTransport
pub mod Transport
pub mod Version
mod Tests
