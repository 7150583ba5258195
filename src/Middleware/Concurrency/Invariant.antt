-- ===== src/Middleware/Concurrency/Invariant.antt =====
-- The counters of middleware/concurrency_limit.py count what they are meant to count, in every order
-- of arrivals, wake-ups, timeouts and ends.
use nf_safety_hub.Prelude.{ℕ, suc, ◌≤◌, max, List, [], ◌∷◌, length, In, ◌≡◌, arith}
use nf_safety_hub.Middleware.Concurrency.{
  new, acquire_slot, wake, expire, release, leave_queue, World, without, settle, off_queue, Step,
  arrive, woken, expires, cancelled, ends, start, Reach,
}

-- The counters are the numbers of running and waiting requests, and within their limits.
pub record IsSound (max_inflight max_queue_size : ℕ) (w : World) : Type 0 where
  pub running : w.limiter.inflight ≡ length w.running
  pub waiting : w.limiter.queued ≡ length w.waiting
  pub capacity : w.limiter.inflight ≤ w.limiter.max_inflight
  pub inflight_limit : w.limiter.max_inflight ≡ max 1 max_inflight
  pub queue_limit : w.limiter.max_queue_size ≡ max_queue_size
  pub queue : w.limiter.queued ≤ w.limiter.max_queue_size

length-without : (id : ℕ) (xs : List ℕ) → In id xs → length xs ≡ suc (length (without id xs))
unfolding without
length-without id [] i = elim i [ ]
length-without id (x ∷ xs) In.here = ground arith
length-without id (x ∷ xs) (In.there i) = ground (arith, length-without id xs i)

module _ (t m q : ℕ) where
  arrive-IsSound :
      (w : World) (id : ℕ) → IsSound m q w → IsSound m q (settle id w (acquire_slot t w.limiter))
  unfolding settle acquire_slot
  arrive-IsSound w id s = ground arith

  woken-IsSound :
      (w : World) (id : ℕ)
      → In id w.waiting
      → IsSound m q w
      → IsSound m q (settle id (off_queue id w) (wake w.limiter))
  unfolding settle wake
  woken-IsSound w id i s = ground (arith, length-without id w.waiting i)

  expires-IsSound :
      (w : World) (id : ℕ)
      → In id w.waiting
      → IsSound m q w
      → IsSound m q (settle id (off_queue id w) (expire t w.limiter))
  unfolding settle expire
  expires-IsSound w id i s = ground (arith, length-without id w.waiting i)

  Step-IsSound : {v w : World} → Step t v w → IsSound m q v → IsSound m q w
  Step-IsSound (arrive v id) s = arrive-IsSound v id s
  Step-IsSound (woken v id i n) s = woken-IsSound v id i s
  Step-IsSound (expires v id i) s = expires-IsSound v id i s
  Step-IsSound (cancelled v id i) s =
      unfold leave_queue in ground (arith, length-without id v.waiting i)
  Step-IsSound (ends v id i) s = unfold release in ground (arith, length-without id v.running i)

  start-IsSound : IsSound m q (start m q)
  unfolding new
  start-IsSound = omega arith

  -- Whatever happens in which order, the counters are exactly the numbers of running and of waiting
  -- requests, and neither passes its limit; so when nothing runs or waits both are 0 again.
  pub Reach-IsSound : (w : World) → Reach t (start m q) w → IsSound m q w
  Reach-IsSound w Reach.here = start-IsSound
  Reach-IsSound w (Reach.next {v = v} r s) = Step-IsSound s (Reach-IsSound v r)
