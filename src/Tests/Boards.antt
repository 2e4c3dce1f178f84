-- ===== src/Tests/Boards.antt =====
-- The boards' parts on simple buses: the Wire library and the Pico SDK with scripted answers.
pub mod Wire
pub mod Line
pub mod Sdk
pub mod Arduino
mod Pico
pub mod Apps
mod System
mod Links
