-- ===== src/Reports.antt =====
-- storage/reports.py: the table of generated reports. Times are in seconds. Of what a generation
-- leaves in its row the model keeps one path: the other paths, the hashes, the summaries and the times
-- of changes are written beside it.
pub mod Generation
pub mod HighRisk
use nf_safety_hub.Prelude.{
  ℕ, ◌+◌, ◌*◌, max, Bool, true, false, not, ◌&&◌, ◌||◌, Option, none, some, List, [], ◌∷◌, ◌++◌,
  map, filter, find, take, length, if◌then◌else◌, eqb, ltb, leb,
}
use nf_safety_hub.Prelude.Text.{Text, str, ◌==◌}
use nf_safety_hub.Prelude.Int.{ℤ}
use nf_safety_hub.Storage.Query.{Page, select_page}
use nf_safety_hub.Storage.Training.Reader.{is_given_as}

pub data Status : Type 0 where
  pending running succeeded failed : Status

pub record ReportPeriod : Type 0 where
  pub report_type : Text
  pub start : ℕ
  pub end : ℕ
  pub label : Text

pub record GeneratedReport : Type 0 where
  pub id : ℕ
  pub report_type : Text
  pub period_start : ℕ
  pub period_end : ℕ
  pub status : Status
  pub generation_mode : Text
  pub include_sensitive : Bool
  pub generated_by : Text
  pub error_message : Text
  pub pdf_path : Text
  pub expires_at : ℕ

abbrev pub is_running : Status → Bool
is_running running = true
is_running _ = false

-- the report of this period
abbrev pub is_of : ReportPeriod → GeneratedReport → Bool
is_of p r = r.report_type == p.report_type && (eqb r.period_start p.start && eqb r.period_end p.end)

-- what a caller of `generate` gives beside the period
pub record Request : Type 0 where
  pub mode : Text
  pub include_sensitive : Bool
  pub generated_by : Text

-- the columns that `create_or_mark_running` sets
unfoldable pub mark_running : Request → ℕ → GeneratedReport → GeneratedReport
mark_running q expires_at r = record r {
  status = running;
  generation_mode = q.mode;
  include_sensitive = q.include_sensitive;
  error_message = [];
  generated_by = q.generated_by;
  expires_at = expires_at;
}

abbrev pub new_report : ℕ → ReportPeriod → GeneratedReport
new_report id p = record {
  id = id;
  report_type = p.report_type;
  period_start = p.start;
  period_end = p.end;
  status = pending;
  generation_mode = [];
  include_sensitive = false;
  generated_by = [];
  error_message = [];
  pdf_path = [];
  expires_at = 0;
}

-- the table with the row of this id changed
abbrev pub change :
    ℕ → (GeneratedReport → GeneratedReport) → List GeneratedReport → List GeneratedReport
change id f table = map (λ r. if eqb r.id id then f r else r) table

abbrev expiry : ℕ → ℕ → ℕ
expiry retention_days now = now + max 1 retention_days * 86400

abbrev pub mark_found :
    Request
    → ℕ
    → ℕ
    → ReportPeriod
    → List GeneratedReport
    → Option GeneratedReport
    → Option (List GeneratedReport × ℕ)
mark_found q expires_at id p table none =
    some (table ++ mark_running q expires_at (new_report id p) ∷ [], id)
mark_found q expires_at id p table (some r) =
    if is_running r.status then none else some (change r.id (mark_running q expires_at) table, r.id)

-- `create_or_mark_running`: the table and the report's id; `none` where the report is already running.
-- `id` is the one that the database gives to a new row.
unfoldable pub create_or_mark_running :
    (retention_days now : ℕ)
    → Request
    → (id : ℕ) → ReportPeriod
    → List GeneratedReport
    → Option (List GeneratedReport × ℕ)
unfolding mark_running
create_or_mark_running retention_days now q id p table =
    mark_found q (expiry retention_days now) id p table (find (is_of p) table)

-- `mark_succeeded`; nothing changes where it raises because the row is gone
unfoldable pub mark_succeeded : ℕ → Text → List GeneratedReport → List GeneratedReport
mark_succeeded id path table =
    change id (λ r. record r { status = succeeded; pdf_path = path }) table

-- `mark_failed`
unfoldable pub mark_failed : ℕ → Text → List GeneratedReport → List GeneratedReport
mark_failed id message table =
    change id (λ r. record r { status = failed; error_message = take 2000 message }) table

-- `cleanup_expired`: the reports it leaves and the number of the others
unfoldable pub cleanup_expired : ℕ → List GeneratedReport → List GeneratedReport × ℕ
cleanup_expired now table = (
  filter (λ r. not (leb r.expires_at now)) table,
  length (filter (λ r. leb r.expires_at now) table),
)

-- `ORDER BY period_start DESC, id DESC`
unfoldable pub newest_first : GeneratedReport → GeneratedReport → Bool
newest_first a b =
    ltb b.period_start a.period_start || (eqb a.period_start b.period_start && ltb b.id a.id)

unfoldable pub status_text : Status → Text
status_text pending = str "pending"
status_text running = str "running"
status_text succeeded = str "succeeded"
status_text failed = str "failed"

-- `list_reports`, with the total beside the items
unfoldable pub list_reports :
    (report_type status : Text) (limit offset : ℤ) → List GeneratedReport → Page GeneratedReport
unfolding newest_first status_text
list_reports report_type status limit offset table =
    select_page newest_first
      (λ r. is_given_as report_type r.report_type && is_given_as status (status_text r.status))
      limit offset table

-- `get`
unfoldable pub get : ℕ → List GeneratedReport → Option GeneratedReport
get report_id table = find (λ r. eqb r.id report_id) table
