-- ===== src/Voucher.antt =====
-- Vouchers: packages/channel-protocol/python/foundry_channel_protocol/voucher.py.
pub mod Checks
pub mod Payload
pub mod Context
pub mod Verify
pub mod Table
pub mod Record
pub mod Ledger
pub mod Monotone
pub mod Running
mod Tests
