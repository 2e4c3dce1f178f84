-- ===== src/Apps.antt =====
-- examples: the programs for boards, which put the components together.
pub mod HeartbeatNode
pub mod PicoNode
pub mod Polling
pub mod CommandController
pub mod Exchange
pub mod MalformedLink
pub mod LossyLink
pub mod HostExamples
pub mod System
