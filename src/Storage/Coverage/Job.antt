-- ===== src/Storage/Coverage/Job.antt =====
-- storage/data_governance.py: `run_coverage_analysis` and `_execute_coverage_job`.
-- What the job meets in each of its rounds is given by the round's number: the seconds since its start,
-- whether its row says that it is to stop or is gone, the conversations written since the round
-- before, what raises, and whether the task is cancelled before the round has committed.
pub mod Ends
use nf_safety_hub.Prelude.{
  ℕ, zero, suc, ◌+◌, ◌-◌, ◌≤◌, ◌<◌, min, max, Bool, true, false, not, ◌&&◌, ◌||◌, Option, none,
  some, List, [], ◌∷◌, ◌++◌, map, filter, any, if◌then◌else◌, is_empty, ltb, leb, eqb, length, take,
  length-take, ◌≡◌, refl, arith, Bool-cases, inl, inr,
}
use nf_safety_hub.Prelude.Text.{Text}
use nf_safety_hub.Json.{Value}
use nf_safety_hub.Storage.Coverage.{
  Conversation, pending, analyzed, AnalysisStatus, is_covered, mark_covered_by_group,
}

pub record CoverageAnalysisConfig : Type 0 where
  pub max_seconds : ℕ
  pub max_records : ℕ
  pub batch_size : ℕ

pub data Status : Type 0 where
  running stopping completed stopped limited timeout failed : Status

pub record DataGovernanceJob : Type 0 where
  pub id : ℕ
  pub status : Status
  pub processed_count : ℕ
  pub marked_count : ℕ
  pub cursor_value : ℕ
  pub started_at : ℕ

-- the statuses of a job that still runs
abbrev pub is_active : Status → Bool
is_active running = true
is_active stopping = true
is_active _ = false

-- Where a round raises: nowhere, in its query, in its marking or in its commit.
pub data Fault : Type 0 where
  no_fault on_read on_mark on_commit : Fault

-- The last write of the job's row: made, passed over since the row is gone, or raising (or cancelled).
pub data FinalWrite : Type 0 where
  written row_missing write_raises : FinalWrite

pub record Surroundings : Type 0 where
  pub elapsed : ℕ → ℕ
  pub elapsed_at_end : ℕ
  pub is_stopping : ℕ → Bool
  pub arrivals : ℕ → List Conversation
  pub fault : ℕ → Fault
  pub is_cancelled : ℕ → Bool
  pub final_write : FinalWrite

-- The table, the local variables, and the job as it is stored.
pub record Progress : Type 0 where
  pub table : List Conversation
  pub processed : ℕ
  pub marked : ℕ
  pub cursor : ℕ
  pub job : DataGovernanceJob

abbrev pub is_pending : AnalysisStatus → Bool
is_pending pending = true
is_pending analyzed = false

-- the query of a round
unfoldable pub next_conversations : List Conversation → ℕ → ℕ → List Conversation
next_conversations table cursor limit =
    take limit (filter (λ c. is_pending c.analysis_status && ltb cursor c.id) table)

abbrev pub last_id : ℕ → List Conversation → ℕ
last_id cursor [] = cursor
last_id cursor (c ∷ cs) = last_id c.id cs

unfoldable pub mark_analyzed : List ℕ → Conversation → Conversation
mark_analyzed ids c = if any (eqb c.id) ids then record c { analysis_status = analyzed } else c

module _ (loads : Text → Option Value) (config : CoverageAnalysisConfig) (s : Surroundings) where
  abbrev store : Progress → Progress
  store p = record p {
    job = record p.job {
      processed_count = p.processed;
      marked_count = p.marked;
      cursor_value = p.cursor;
    };
  }

  -- the body of a round on the conversations that were read, and whether it raised
  unfoldable pub analyze : Fault → Progress → List Conversation → Progress × Bool
  unfolding mark_analyzed
  analyze fault p conversations =
      let counted = record p {
        cursor = last_id p.cursor conversations;
        processed = p.processed + length conversations;
      } in
      let (table, marks) = mark_covered_by_group loads p.table conversations in
      let done = record counted {
        table = map (mark_analyzed (map (λ c. c.id) conversations)) table;
        marked = p.marked + marks;
      } in
      elim fault [
        | no_fault ↦ (store done, false)
        | on_read ↦ (p, true)
        | on_mark ↦ (counted, true)
        | on_commit ↦ (record counted { marked = done.marked }, true)
      ]

  -- the status after the loop, if nothing raised
  unfoldable pub final_status : Status → Progress → Status
  final_status status p =
      if leb config.max_records p.processed
      then limited
      else if leb config.max_seconds s.elapsed_at_end
      then timeout
      else status

  -- what is there at the end, with the status that is returned, or none where an exception leaves the
  -- function
  abbrev pub Ended : Type 0
  Ended = Progress × Option Status

  abbrev end_round : (Progress → Option Ended) → Progress × Bool → Option Ended
  end_round more (p, true) = some (p, some failed)
  end_round more (p, false) = more p

  abbrev read_round : ℕ → (Progress → Option Ended) → Progress → List Conversation → Option Ended
  read_round round more p [] = some (p, some (final_status completed p))
  read_round round more p (c ∷ cs) = end_round more (analyze (s.fault round) p (c ∷ cs))

  abbrev arrived : ℕ → Progress → Progress
  arrived round p = record p { table = p.table ++ s.arrivals round }

  abbrev is_on_read : Fault → Bool
  is_on_read on_read = true
  is_on_read _ = false

  abbrev batch_limit : ℕ → ℕ
  batch_limit processed = min (max config.batch_size 1) (config.max_records - processed)

  abbrev run_body : ℕ → (Progress → Option Ended) → Progress → Option Ended
  run_body round more p =
      if s.is_cancelled round
      then some (p, none)
      else if s.is_stopping round
      then some (p, some (final_status stopped p))
      else if is_on_read (s.fault round)
      then some (p, some failed)
      else read_round round more p (next_conversations p.table p.cursor (batch_limit p.processed))

  -- the loop of `_execute_coverage_job`; `none` where the fuel runs out
  unfoldable pub loop : ℕ → ℕ → Progress → Option Ended
  unfolding analyze final_status next_conversations
  loop zero round p = none
  loop (suc fuel) round p =
      if ltb p.processed config.max_records && ltb (s.elapsed round) config.max_seconds
      then run_body round (loop fuel (suc round)) (arrived round p)
      else some (p, some (final_status completed p))

  abbrev stored_as : Status → Progress → Progress
  stored_as status p = let q = store p in record q { job = record q.job { status = status } }

  abbrev write_end : FinalWrite → Progress → Status → Ended
  write_end written p status = (stored_as status p, some status)
  write_end row_missing p status = (p, some status)
  write_end write_raises p status = (p, none)

  abbrev finish : Ended → Ended
  finish (p, none) = (p, none)
  finish (p, some status) = write_end s.final_write p status

  abbrev finish_if : Option Ended → Option Ended
  finish_if none = none
  finish_if (some e) = some (finish e)

  -- `_execute_coverage_job`, with one round more than the records it may process
  unfoldable pub execute_coverage_job : DataGovernanceJob → List Conversation → Option Ended
  unfolding loop
  execute_coverage_job job table = finish_if (
      loop (suc config.max_records) 0
        (record { table = table; processed = 0; marked = 0; cursor = 0; job = job }))
