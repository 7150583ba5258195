-- ===== src/Governance.antt =====
-- governance/: the API keys of the clients, and middleware/identity.py, which authenticates by them.
pub mod ApiKeys
pub mod Identity
