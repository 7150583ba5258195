-- ===== src/Middleware/Concurrency.antt =====
-- middleware/concurrency_limit.py: `V1ConcurrencyLimitMiddleware`.
-- The counters change only under the lock of the condition, so that each method between two awaits is
-- one step. A `World` adds which requests wait for a slot, the newest first, which of them the
-- condition has notified, and which run, by a number for each.
-- A limit of the settings is an integer; the constructor raises a negative one to its least value.
pub mod Invariant
pub mod Verdicts
pub mod Progress
use nf_safety_hub.Prelude.{
  ℕ, zero, suc, ◌+◌, ◌-◌, ◌≤◌, ◌<◌, max, Bool, true, false, not, ◌&&◌, ◌||◌, List, [], ◌∷◌,
  if◌then◌else◌, eqb, leb, any, In, Option, none, some, ◌≡◌,
}
use nf_safety_hub.Prelude.Text.{Text, str, ◌==◌, starts_with}

pub record Limiter : Type 0 where
  pub max_inflight : ℕ
  pub max_queue_size : ℕ
  pub queued : ℕ
  pub inflight : ℕ

-- `__init__`, with the configured limits
unfoldable pub new : ℕ → ℕ → Limiter
new max_inflight max_queue_size = record {
  max_inflight = max 1 max_inflight;
  max_queue_size = max_queue_size;
  queued = 0;
  inflight = 0;
}

-- Requests of another kind or path go to the application at once.
unfoldable pub is_limited : Text → Text → Bool
is_limited scope_type path = scope_type == str "http" && starts_with path (str "/v1/")

pub data Reason : Type 0 where
  queue_full queue_timeout : Reason

-- The response of `_send_reject`, with the headers that report the counters.
pub record Rejection : Type 0 where
  pub status : ℕ
  pub reason : Reason
  pub inflight : ℕ
  pub queue_size : ℕ
  pub retry_after : ℕ

-- `timeout_seconds` is `int(self._queue_timeout_seconds)`
unfoldable pub send_reject : ℕ → Limiter → Reason → Rejection
send_reject timeout_seconds l reason = record {
  status = 429;
  reason = reason;
  inflight = l.inflight;
  queue_size = l.queued;
  retry_after = max 1 timeout_seconds;
}

-- What `_acquire_slot` does when it is called: it takes a slot, queues the request or rejects it.
pub data Verdict : Type 0 where
  admitted : (inflight queue_size : ℕ) → Verdict
  waits : Verdict
  rejected : Rejection → Verdict

abbrev pub saturated : Limiter → Bool
saturated l = leb l.max_inflight l.inflight

abbrev pub queue_is_full : Limiter → Bool
queue_is_full l = leb l.max_queue_size l.queued

-- `self._inflight += 1` and the counters that are returned
unfoldable pub take_slot : Limiter → Limiter × Verdict
take_slot l = (record l { inflight = l.inflight + 1 }, admitted (l.inflight + 1) l.queued)

-- `_acquire_slot` up to its first wait
unfoldable pub acquire_slot : ℕ → Limiter → Limiter × Verdict
unfolding take_slot send_reject
acquire_slot timeout_seconds l =
    if saturated l
    then (if queue_is_full l
        then (l, rejected (send_reject timeout_seconds l queue_full))
        else (record l { queued = l.queued + 1 }, waits))
    else take_slot l

-- the `finally` of a queued request
unfoldable pub leave_queue : Limiter → Limiter
leave_queue l = record l { queued = l.queued - 1 }

-- A queued request that is woken: it waits again while there is no slot.
unfoldable pub wake : Limiter → Limiter × Verdict
unfolding take_slot leave_queue
wake l = if saturated l then (l, waits) else take_slot (leave_queue l)

-- A queued request whose time is over: the rejection still counts it as queued.
unfoldable pub expire : ℕ → Limiter → Limiter × Verdict
unfolding leave_queue send_reject
expire timeout_seconds l = (leave_queue l, rejected (send_reject timeout_seconds l queue_timeout))

pub record World : Type 0 where
  pub limiter : Limiter
  pub waiting : List ℕ
  pub notified : List ℕ
  pub running : List ℕ

-- the list without the first occurrence of a request
unfoldable pub without : ℕ → List ℕ → List ℕ
without id [] = []
without id (x ∷ xs) = if eqb x id then xs else x ∷ without id xs

unfoldable pub settle : ℕ → World → Limiter × Verdict → World
settle id w (l, admitted _ _) = record w { limiter = l; running = id ∷ w.running }
settle id w (l, waits) = record w { limiter = l; waiting = id ∷ w.waiting }
settle id w (l, rejected _) = record w { limiter = l }

abbrev pub off_queue : ℕ → World → World
off_queue id w = record w { waiting = without id w.waiting; notified = without id w.notified }

-- the oldest waiting request that has not been notified
unfoldable pub next_waiter : (notified waiting : List ℕ) → Option ℕ
next_waiter notified [] = none
next_waiter notified (x ∷ xs) =
    let older = next_waiter notified xs in
    elim older [ some y ↦ some y | none ↦ if any (eqb x) notified then none else some x ]

abbrev pub notify : Option ℕ → List ℕ → List ℕ
notify none notified = notified
notify (some x) notified = x ∷ notified

-- the `finally` of `__call__`: the counter, and `self._condition.notify(1)`
unfoldable pub release : ℕ → World → World
unfolding next_waiter
release id w = record w {
  limiter = record w.limiter { inflight = w.limiter.inflight - 1 };
  running = without id w.running;
  notified = notify (next_waiter w.notified w.waiting) w.notified;
}

-- One step of the server: a request arrives; a queued one that was notified is woken, or its time is over or its client
-- leaves; a running one ends, with or without an exception.
pub data Step (timeout_seconds : ℕ) : World → World → Type 0 where
  arrive :
      (w : World) (id : ℕ)
      → Step timeout_seconds w (settle id w (acquire_slot timeout_seconds w.limiter))
  woken :
      (w : World) (id : ℕ)
      → In id w.waiting
      → In id w.notified
      → Step timeout_seconds w (settle id (off_queue id w) (wake w.limiter))
  expires :
      (w : World) (id : ℕ)
      → In id w.waiting
      → Step timeout_seconds w (settle id (off_queue id w) (expire timeout_seconds w.limiter))
  cancelled :
      (w : World) (id : ℕ)
      → In id w.waiting
      → Step timeout_seconds w (record (off_queue id w) { limiter = leave_queue w.limiter })
  ends : (w : World) (id : ℕ) → In id w.running → Step timeout_seconds w (release id w)

abbrev pub start : ℕ → ℕ → World
start max_inflight max_queue_size = record {
  limiter = new max_inflight max_queue_size;
  waiting = [];
  notified = [];
  running = [];
}

pub data Reach (timeout_seconds : ℕ) (from : World) : World → Type 0 where
  here : Reach timeout_seconds from from
  next :
      {v w : World}
      → Reach timeout_seconds from v
      → Step timeout_seconds v w
      → Reach timeout_seconds from w
