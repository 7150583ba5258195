-- ===== src/Runtime.antt =====
-- runtime/: the background parts of the application.
pub mod ArchiveQueue
pub mod AdminCache
pub mod Settings
