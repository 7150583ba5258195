-- ===== src/Middleware/Concurrency/Verdicts.antt =====
-- When middleware/concurrency_limit.py admits, queues and rejects.
use nf_safety_hub.Prelude.{ℕ, ◌+◌, ◌<◌, max, length, ◌≡◌, arith}
use nf_safety_hub.Middleware.Concurrency.{
  acquire_slot, World, start, Reach, admitted, waits, rejected, queue_full,
}
use nf_safety_hub.Middleware.Concurrency.Invariant.{Reach-IsSound}

-- What a request that arrives meets, by the requests that are there.
pub record Arrival (t m q : ℕ) (w : World) : Type 0 where
  pub admits :
      length w.running < max 1 m
      → (acquire_slot t w.limiter).1 ≡ admitted (length w.running + 1) (length w.waiting)
  pub queues :
      length w.running ≡ max 1 m → length w.waiting < q → (acquire_slot t w.limiter).1 ≡ waits
  pub rejects :
      length w.running ≡ max 1 m
      → length w.waiting ≡ q
      → (acquire_slot t w.limiter).1
        ≡ rejected (record {
          status = 429;
          reason = queue_full;
          inflight = max 1 m;
          queue_size = q;
          retry_after = max 1 t;
        })

-- A request that arrives in a reachable state is admitted at once if a slot is free, queued if none is
-- and the queue has room, and rejected with 429 and the counters if both are full; the counters that
-- it is told are those of the requests that are there.
pub acquire_slot-Arrival : (t m q : ℕ) (w : World) → Reach t (start m q) w → Arrival t m q w
unfolding acquire_slot
acquire_slot-Arrival t m q w r =
    let s = Reach-IsSound t m q w r in
    record {
      admits = λ room. ground (arith, s.running, s.waiting, s.inflight_limit);
      queues = λ full room. ground (arith, s.running, s.waiting, s.inflight_limit, s.queue_limit);
      rejects =
          λ full no_room. ground (arith, s.running, s.waiting, s.inflight_limit, s.queue_limit);
    }
