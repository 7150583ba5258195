-- ===== src/Lib.antt =====
-- A verification library for NF-SafetyHub, a gateway between clients and an OpenAI-compatible
-- upstream that scans chat requests, blocks or masks them, and audits what it did. It is written in
-- Python; paths are from the repository's root.
--
-- A request under /v1/ passes the middlewares (middleware/concurrency_limit.py,
-- middleware/request_limit.py, middleware/identity.py) and reaches the handler
-- `relay_openai_compatible` of proxy/relay.py.
-- For a chat request the handler takes the newest text of the messages, has the orchestrator of
-- engine/scanner.py scan it with the keyword and regex scanners, answers a blocked request itself
-- (proxy/fake_response.py), and relays any other one with its messages masked and its headers
-- filtered (proxy/header_policy.py). Audit and archive records go to the queue of
-- runtime/archive_queue.py, whose worker writes them to the database (storage/audit.py,
-- storage/training.py). Requests under /admin pass middleware/auth.py; administrators read and clean
-- the tables, start analyses (storage/data_governance.py) and have reports made (runtime/reports.py).
--
-- Files:
--   Prelude: native numbers, Boolean tests, lists, Python text (a list of code points) and dicts
--     (association lists in insertion order). Json: what `json.loads` returns, and its `==`.
--   Proxy/Extract, Proxy/Desensitize, Proxy/Collector, Proxy/Relay: proxy/relay.py, from the text
--     that is scanned to the whole handler. Proxy/Relay/Handler has `relay_openai_compatible`, cut into
--     `relay_chat` and `relay_other` by its path. Proxy/Headers: proxy/header_policy.py and the header
--     functions of proxy/relay.py. Proxy/Fake: proxy/fake_response.py.
--   Engine/Results, Normalizer, Scanner, Keyword, Regex: engine/models.py, normalizer.py, scanner.py
--     with base.py, rules_keyword.py, rules_regex.py.
--   Middleware/Concurrency, Middleware/BodyLimit: the two middlewares. Middleware/Auth:
--     middleware/auth.py, the guards of the administration.
--   Governance/ApiKeys, Governance/Identity: governance/api_keys.py and middleware/identity.py.
--   Runtime/ArchiveQueue, Runtime/AdminCache, Runtime/Settings: runtime/archive_queue.py,
--     runtime/admin_cache.py, storage/runtime_settings.py.
--   Storage/Query: the queries on a table, a list of rows. Storage/Training, Storage/Audit: what
--     storage/training.py and storage/audit.py write of a request, read and clean up.
--   Storage/Coverage, Storage/Governance: storage/data_governance.py, the analysis that marks the
--     conversations that later ones continue, and the service that runs it and the clean-ups.
--   Reports: storage/reports.py and the generations of runtime/reports.py. Startup: config.py.
--   Storage/AdminOps: storage/admin_ops.py.
--   Storage/ImageAssets: storage/image_assets.py, the images of an answer and their downloads.
--   Tests: concrete inputs.
--
-- A handler is a run: the list of what it sends, audits and archives, with its reply or the
-- exception. The asynchronous parts, the concurrency limit and the archive queue, are sequences of
-- steps, each the code between two awaits. Every loop is a structural recursion but two: a download
-- has the five rounds of its source, and the coverage job one round more than the records it may
-- process, which is enough since each round but the last processes one.
-- Parameters stand for what the repository does not hold: regular expressions, JSON, hashing and
-- encryption, the Unicode tables, URLs and IP addresses, LIKE, the settings, and the answers of
-- other servers.
--
-- Not modelled: the mapping of tables to the database, the routes of the admin pages, the
-- figures and files of reports, the wiring at the start, the providers of keys and
-- scripts; latencies within the parts that are modelled.
pub mod Prelude
pub mod Json
pub mod Engine
pub mod Proxy
pub mod Middleware
pub mod Governance
pub mod Runtime
pub mod Storage
pub mod Reports
pub mod Startup
pub mod Tests
