-- ===== src/Proxy.antt =====
-- proxy/: the OpenAI-compatible relay, its header policy and its stream archive.
pub mod Extract
pub mod Desensitize
pub mod Headers
pub mod Fake
pub mod Collector
pub mod Relay
