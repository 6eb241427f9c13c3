-- ===== src/Channel.antt =====
-- Channel snapshots and funding transitions:
-- packages/channel-protocol/python/foundry_channel_protocol/channel.py.
pub mod Checks
pub mod Accounts
pub mod Status
pub mod Lifecycle
pub mod Snapshot
pub mod Reads
pub mod Conservation
pub mod CloseWindow
pub mod Funding
pub mod Running
pub mod Sample
mod Tests
