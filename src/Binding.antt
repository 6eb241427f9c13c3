-- ===== src/Binding.antt =====
-- Channel claims and recipient bindings:
-- packages/channel-protocol/python/foundry_channel_protocol/recipient_binding.py.
pub mod Checks
pub mod Context
pub mod Claim
pub mod Payload
pub mod Verify
pub mod Ledger
mod Tests
