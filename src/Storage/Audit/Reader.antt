-- ===== src/Storage/Audit/Reader.antt =====
-- storage/audit.py: `AuditReader`.
use nf_safety_hub.Prelude.{ℕ, Bool, ◌&&◌, ◌||◌, Option, List, find, ltb, leb, eqb}
use nf_safety_hub.Prelude.Text.{Text}
use nf_safety_hub.Prelude.Int.{ℤ}
use nf_safety_hub.Storage.Query.{count, Page, select_page}
use nf_safety_hub.Storage.Training.Reader.{is_given_as, is_since, is_until}
use nf_safety_hub.Storage.Audit.{AuditLog}

-- A row of the table: its id, the time of its writing in seconds, and what the writer gave it.
pub record StoredLog : Type 0 where
  pub id : ℕ
  pub created_at : ℕ
  pub log : AuditLog

pub record AuditQuery : Type 0 where
  pub limit : ℤ
  pub offset : ℤ
  pub user_id : Text
  pub rule_id : Text
  pub rule_level : Text
  pub scanner_type : Text
  pub action_taken : Text
  pub start_time : Option ℕ
  pub end_time : Option ℕ

-- `_audit_filters`
unfoldable pub audit_filters : AuditQuery → StoredLog → Bool
audit_filters q a =
    is_given_as q.user_id a.log.user_id
    && (is_given_as q.rule_id a.log.rule_id
        && (is_given_as q.rule_level a.log.rule_level
            && (is_given_as q.scanner_type a.log.scanner_type
                && (is_given_as q.action_taken a.log.action_taken
                    && (is_since q.start_time a.created_at && is_until q.end_time a.created_at)))))

-- `ORDER BY created_at DESC, id DESC`
unfoldable pub newest_first : StoredLog → StoredLog → Bool
newest_first a b = ltb b.created_at a.created_at || (eqb a.created_at b.created_at && ltb b.id a.id)

-- `list`
unfoldable pub list : AuditQuery → List StoredLog → Page StoredLog
unfolding audit_filters newest_first
list q table = select_page newest_first (audit_filters q) q.limit q.offset table

-- `get`
unfoldable pub get : ℕ → List StoredLog → Option StoredLog
get audit_id table = find (λ a. eqb a.id audit_id) table

-- `count_between`
unfoldable pub count_between : ℕ → ℕ → Text → List StoredLog → ℕ
count_between start_time end_time rule_level table =
    count
      (λ a.
        leb start_time a.created_at
        && (ltb a.created_at end_time && is_given_as rule_level a.log.rule_level))
      table

-- `count_audits_between`
unfoldable pub count_audits_between : List StoredLog → ℕ → ℕ → Text → ℕ
unfolding count_between
count_audits_between table start_time end_time rule_level =
    count_between start_time end_time rule_level table
