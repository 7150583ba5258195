-- ===== src/Storage.antt =====
-- storage/: what the services keep and clean up.
pub mod ImageAssets
pub mod Coverage
pub mod Training
pub mod Query
pub mod Audit
pub mod Governance
pub mod AdminOps
