-- ===== src/PicoTransport.antt =====
-- ports/pico-sdk: the transports over the Pico SDK.
pub mod Sdk
pub mod I2c
pub mod Uart
pub mod Slots
