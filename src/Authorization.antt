-- ===== src/Authorization.antt =====
-- Execution authorizations: services/authorization/authority.py.
pub mod Journal
mod Tests
