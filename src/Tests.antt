-- ===== src/Tests.antt =====
-- Tests on concrete inputs, the published protocol vectors among them, and each law at one input.
mod Codec
mod Streams
mod Pico
mod Nodes
mod Queues
mod Release
mod Boards
