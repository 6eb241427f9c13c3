-- ===== src/Capability.antt =====
-- The draft capability contracts of the offline adapter:
-- packages/channel-protocol/python/foundry_channel_protocol/capabilities.py. A rejection keeps its code
-- and its stage.
pub mod Checks
pub mod Operation
pub mod Binds
mod Tests
