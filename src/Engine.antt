-- ===== src/Engine.antt =====
-- engine/: the scanners, their results and the orchestrator.
pub mod Results
pub mod Normalizer
pub mod Keyword
pub mod Regex
pub mod Scanner
