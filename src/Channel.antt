-- ===== src/Channel.antt =====
-- The channel contract of henk/channel/base.py that the other parts depend on, and the splitting
-- of long messages (Split).
pub mod Split

pub data SendOutcome : Type 0 where
  delivered partial failed : SendOutcome
