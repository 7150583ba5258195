-- ===== src/Runtime/ArchiveQueue.antt =====
-- runtime/archive_queue.py: `ArchiveQueue`, the bounded queue between the handlers and the database.
-- The payloads are of any two types. The worker's round is two kinds of steps, since other tasks run
-- while `_next_batch` waits: it takes an item into its batch, and it stores the batch. When it does
-- which depends on the clock, and whether a writer raises on the database: both are in the operation.
pub mod Order
pub mod Trail
use nf_safety_hub.Prelude.{
  ℕ, zero, suc, ◌+◌, ◌-◌, ◌≤◌, max, min, Bool, true, false, not, ◌&&◌, ◌||◌, List, [], ◌∷◌, ◌++◌,
  if◌then◌else◌, leb, length, take, drop, is_empty,
}

-- `ArchiveQueueItem`
pub data Item (A B : Type 0) : Type 0 where
  archive : A → Item A B
  audit : B → Item A B

-- The queue with the batch of the worker and what its writers have stored.
pub record ArchiveQueue (A B : Type 0) : Type 0 where
  pub queue : List (Item A B)
  pub batch : List (Item A B)
  pub max_size : ℕ
  pub batch_size : ℕ
  pub dropped : ℕ
  pub processed : ℕ
  pub stored_archives : List A
  pub stored_audits : List B

-- How the round that stores a batch goes: the setting, and whether each writer returns.
pub record Outcomes : Type 0 where
  pub capture_enabled : Bool
  pub archives_written : Bool
  pub audits_written : Bool

pub data Operation (A B : Type 0) : Type 0 where
  put : Item A B → Operation A B
  collect : Operation A B
  store : Outcomes → Operation A B

module _ {A B : Type 0} where
  -- `__init__`, with the configured sizes
  unfoldable pub new : ℕ → ℕ → ArchiveQueue A B
  new max_size batch_size = record {
    queue = [];
    batch = [];
    max_size = max 1 max_size;
    batch_size = max 1 batch_size;
    dropped = 0;
    processed = 0;
    stored_archives = [];
    stored_audits = [];
  }

  -- `_enqueue`; the result says whether the item was taken
  unfoldable pub enqueue : ArchiveQueue A B → Item A B → ArchiveQueue A B × Bool
  enqueue q item =
      if leb q.max_size (length q.queue)
      then (record q { dropped = q.dropped + 1 }, false)
      else (record q { queue = q.queue ++ item ∷ [] }, true)

  -- `_next_batch` takes an item: the first one, or a further one while the batch has room.
  abbrev pub collect_first : List (Item A B) → ArchiveQueue A B → ArchiveQueue A B
  collect_first [] q = q
  collect_first (item ∷ items) q = record q { queue = items; batch = q.batch ++ item ∷ [] }

  unfoldable pub next_batch : ArchiveQueue A B → ArchiveQueue A B
  next_batch q = if leb q.batch_size (length q.batch) then q else collect_first q.queue q

  -- `[item.payload for item in batch if item.kind == "archive"]`
  abbrev pub archives_of : List (Item A B) → List A
  archives_of [] = []
  archives_of (archive a ∷ items) = a ∷ archives_of items
  archives_of (audit b ∷ items) = archives_of items

  abbrev pub audits_of : List (Item A B) → List B
  audits_of [] = []
  audits_of (archive a ∷ items) = audits_of items
  audits_of (audit b ∷ items) = b ∷ audits_of items

  -- the second `if` of a round
  unfoldable pub store_audits : Outcomes → List B → ArchiveQueue A B → ArchiveQueue A B
  store_audits o audits q = if is_empty audits || not o.audits_written then q else record q {
    stored_audits = q.stored_audits ++ audits;
    processed = q.processed + length audits;
  }

  -- The body of the `try` of a round: an exception of the first writer skips the second.
  unfoldable pub store_batch : Outcomes → List (Item A B) → ArchiveQueue A B → ArchiveQueue A B
  unfolding store_audits
  store_batch o batch q =
      let archives = archives_of batch in
      if is_empty archives || not o.capture_enabled
      then store_audits o (audits_of batch) q
      else if o.archives_written
      then store_audits o (audits_of batch) (record q {
        stored_archives = q.stored_archives ++ archives;
        processed = q.processed + length archives;
      })
      else q

  -- The part of `_run` after `_next_batch`: whatever happens, the next round has a new batch.
  unfoldable pub run_round : Outcomes → ArchiveQueue A B → ArchiveQueue A B
  unfolding store_batch
  run_round o q = store_batch o q.batch (record q { batch = [] })

  unfoldable pub perform : ArchiveQueue A B → Operation A B → ArchiveQueue A B
  unfolding enqueue next_batch run_round
  perform q (put item) = (enqueue q item).0
  perform q collect = next_batch q
  perform q (store o) = run_round o q

  unfoldable pub perform_all : ArchiveQueue A B → List (Operation A B) → ArchiveQueue A B
  unfolding perform
  perform_all q [] = q
  perform_all q (op ∷ ops) = perform_all (perform q op) ops
