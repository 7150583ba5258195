-- ===== src/Storage/Governance.antt =====
-- storage/data_governance.py: `DataGovernanceService`, which counts, previews and cleans the training
-- and audit tables and starts the coverage analysis. Times are in seconds.
use nf_safety_hub.Prelude.{
  ℕ, ◌+◌, ◌*◌, min, Bool, ◌&&◌, ◌||◌, Option, none, some, List, [], ◌∷◌, ◌++◌, if◌then◌else◌, map,
  filter, length, take, head?, ltb, leb, eqb,
}
use nf_safety_hub.Prelude.Text.{Text}
use nf_safety_hub.Prelude.Int.{ℤ, at_least}
use nf_safety_hub.Json.{Value}
use nf_safety_hub.Storage.Query.{sort_by, count, delete_ids}
use nf_safety_hub.Storage.Training.Reader.{StoredConversation, TrainingSummary}
use nf_safety_hub.Storage.Training.Reader
use nf_safety_hub.Storage.Training.Cleanup.{TrainingCleanupPreview, TrainingCleanupResult}
use nf_safety_hub.Storage.Training.Cleanup
use nf_safety_hub.Storage.Audit.Reader.{StoredLog}
use nf_safety_hub.Storage.Coverage.{Conversation}
use nf_safety_hub.Storage.Coverage.Job.{
  CoverageAnalysisConfig, Status, running, is_active, DataGovernanceJob, Surroundings, Progress,
  execute_coverage_job,
}

pub record DataGovernanceSummary : Type 0 where
  pub training : TrainingSummary
  pub audit_total : ℕ
  pub audit_expired : ℕ
  pub running_job : Option DataGovernanceJob

pub record DataGovernanceCleanupPreview : Type 0 where
  pub training : TrainingCleanupPreview
  pub audit_expired : ℕ

pub record DataGovernanceCleanupResult : Type 0 where
  pub training : TrainingCleanupResult
  pub audit_deleted : ℕ

abbrev retention_days : ℕ → ℕ
retention_days days = if eqb days 0 then 36500 else days

-- `created_at <= _audit_cutoff(now)`, with the days that audits are kept; 0 keeps them a hundred years
unfoldable pub is_audit_expired : (audit_retention_days now : ℕ) → StoredLog → Bool
is_audit_expired days now a = leb (a.created_at + retention_days days * 86400) now

-- `_expired_audit_stmt`
unfoldable pub select_expired_audits : ℕ → ℕ → ℤ → List StoredLog → List ℕ
unfolding is_audit_expired at_least
select_expired_audits days now limit audits =
    map (λ a. a.id)
      (take (min (at_least 1 limit) 10000) (
        sort_by (λ a b. ltb a.created_at b.created_at) (filter (is_audit_expired days now) audits)))

-- the order of `_running_job` and of the latest job
abbrev latest_first : DataGovernanceJob → DataGovernanceJob → Bool
latest_first a b = ltb b.started_at a.started_at || (eqb a.started_at b.started_at && ltb b.id a.id)

-- `_running_job`
unfoldable pub running_job : List DataGovernanceJob → Option DataGovernanceJob
running_job jobs = head? (sort_by latest_first (filter (λ j. is_active j.status) jobs))

abbrev or_latest : List DataGovernanceJob → Option DataGovernanceJob → Option DataGovernanceJob
or_latest jobs (some j) = some j
or_latest jobs none = head? (sort_by latest_first jobs)

-- `coverage_status`
unfoldable pub coverage_status : List DataGovernanceJob → Option DataGovernanceJob
unfolding running_job
coverage_status jobs = or_latest jobs (running_job jobs)

-- `summary`
unfoldable pub summary :
    (audit_retention_days now : ℕ)
    → List StoredConversation
    → List StoredLog
    → List DataGovernanceJob
    → DataGovernanceSummary
unfolding is_audit_expired running_job
summary days now table audits jobs = record {
  training = Reader.summary now table;
  audit_total = length audits;
  audit_expired = count (is_audit_expired days now) audits;
  running_job = running_job jobs;
}

abbrev audit_ids : Bool → ℕ → ℕ → ℤ → List StoredLog → List ℕ
audit_ids include days now limit audits =
    if include then select_expired_audits days now limit audits else []

-- what is asked for of a preview or a clean-up
pub record CleanupRequest : Type 0 where
  pub include_training_covered : Bool
  pub include_training_expired : Bool
  pub include_audit_expired : Bool
  pub limit : ℤ

-- `preview_cleanup`
unfoldable pub preview_cleanup :
    (audit_retention_days now : ℕ)
    → CleanupRequest
    → List StoredConversation
    → List StoredLog
    → DataGovernanceCleanupPreview
unfolding select_expired_audits
preview_cleanup days now q table audits = record {
  training =
      Cleanup.preview_cleanup q.include_training_covered q.include_training_expired now q.limit
        table;
  audit_expired = length (audit_ids q.include_audit_expired days now q.limit audits);
}

-- `cleanup`: the two tables after it, and what it reports
unfoldable pub cleanup :
    (audit_retention_days now : ℕ)
    → CleanupRequest
    → List StoredConversation
    → List StoredLog
    → (List StoredConversation × List StoredLog) × DataGovernanceCleanupResult
unfolding select_expired_audits delete_ids
cleanup days now q table audits =
    let (rows, training) =
      Cleanup.cleanup q.include_training_covered q.include_training_expired now q.limit table in
    let ids = audit_ids q.include_audit_expired days now q.limit audits in
    (
      (rows, delete_ids (λ a. a.id) ids audits),
      record { training = training; audit_deleted = length ids },
    )

-- The insertion of a job's row: made, or raising without the row, or with it, where the row is there
-- but cannot be read back.
pub data Insertion : Type 0 where
  inserted not_inserted not_refreshed : Insertion

-- What a run comes to: a job runs already, an exception, or the status with which the analysis ended.
pub data RunReply : Type 0 where
  already_running : DataGovernanceJob → RunReply
  raised : RunReply
  ended : Status → RunReply

-- the jobs and the training conversations after a run, and its reply
pub record Run : Type 0 where
  pub jobs : List DataGovernanceJob
  pub table : List Conversation
  pub reply : RunReply

abbrev pub new_job : ℕ → ℕ → DataGovernanceJob
new_job id now = record {
  id = id;
  status = running;
  processed_count = 0;
  marked_count = 0;
  cursor_value = 0;
  started_at = now;
}

abbrev reply_of : Option Status → RunReply
reply_of none = raised
reply_of (some status) = ended status

module _ (loads : Text → Option Value) (config : CoverageAnalysisConfig) (s : Surroundings) where
  abbrev run_of : List DataGovernanceJob → Option (Progress × Option Status) → Option Run
  run_of jobs none = none
  run_of jobs (some (p, r)) =
      some (record { jobs = jobs ++ p.job ∷ []; table = p.table; reply = reply_of r })

  abbrev run_inserted :
      Insertion → DataGovernanceJob → List DataGovernanceJob → List Conversation → Option Run
  run_inserted inserted job jobs table = run_of jobs (execute_coverage_job loads config s job table)
  run_inserted not_inserted job jobs table =
      some (record { jobs = jobs; table = table; reply = raised })
  run_inserted not_refreshed job jobs table =
      some (record { jobs = jobs ++ job ∷ []; table = table; reply = raised })

  abbrev run_unless :
      Option DataGovernanceJob
      → Insertion
      → DataGovernanceJob
      → List DataGovernanceJob
      → List Conversation
      → Option Run
  run_unless (some existing) insertion job jobs table =
      some (record { jobs = jobs; table = table; reply = already_running existing })
  run_unless none insertion job jobs table = run_inserted insertion job jobs table

  -- `run_coverage_analysis`, with the id that the database gives the job, the time, and what the
  -- insertion of its row comes to. The check sees the jobs of an earlier moment, `seen`, than the
  -- insertion, which adds to `jobs`: another run may have come between. What others do to the jobs
  -- after that is left out.
  unfoldable pub run_coverage_analysis :
      (id now : ℕ)
      → Insertion
      → (seen jobs : List DataGovernanceJob) → List Conversation
      → Option Run
  unfolding running_job
  run_coverage_analysis id now insertion seen jobs table =
      run_unless (running_job seen) insertion (new_job id now) jobs table
