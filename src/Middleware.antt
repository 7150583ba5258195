-- ===== src/Middleware.antt =====
-- middleware/: the layers that a request passes before the relay.
pub mod Concurrency
pub mod BodyLimit
pub mod Auth
