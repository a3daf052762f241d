-- ===== src/Host/Agent.antt =====
-- The agent's side of the viewer: src/host/agent.
pub mod WireFrame
pub mod NaturalPixelLayout
pub mod Values
pub mod ViewModel
pub mod AgentCore
