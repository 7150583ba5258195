-- ===== src/Middleware/Concurrency/Progress.antt =====
-- What becomes of a request that waits at middleware/concurrency_limit.py when a running one ends.
