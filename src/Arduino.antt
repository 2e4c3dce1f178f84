-- ===== src/Arduino.antt =====
-- src/arduino: the transports over Arduino's Wire library.
pub mod TwoWire
pub mod Controller
pub mod Endpoint
pub mod Active
