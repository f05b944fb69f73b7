-- ===== src/Agent.antt =====
-- The agent of henk/agent: how a turn's ending is classified (Ending), and the core that runs the
-- turns (Core).
pub mod Ending
pub mod Core
mod Examples
