-- ===== src/Signer.antt =====
-- The journal of the exact-message signer: services/signer/boundary.py.
pub mod Journal
mod Tests
