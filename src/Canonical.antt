-- ===== src/Canonical.antt =====
-- Canonical bytes, hashes and self-hashed records:
-- packages/channel-protocol/python/foundry_channel_protocol/canonical.py. The serializer `rfc8785` and
-- SHA-256 are parameters, the record `Host`. A rejection carries its code and stage.
pub mod Json
pub mod Record
mod Tests
