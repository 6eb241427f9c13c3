-- ===== src/Closure.antt =====
-- Close, refund and epoch eligibility:
-- packages/channel-protocol/python/foundry_channel_protocol/closure.py.
pub mod Checks
pub mod Totals
pub mod Snapshots
pub mod Request
pub mod Refund
pub mod Finalize
pub mod Table
pub mod Runtime
mod Running
mod Sample
mod Runs
mod Tests
