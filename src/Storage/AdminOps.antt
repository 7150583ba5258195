-- ===== src/Storage/AdminOps.antt =====
-- storage/admin_ops.py: the record of what administrators do, and the queries on it.
use nf_safety_hub.Prelude.{ℕ, Bool, ◌&&◌, ◌||◌, List, [], ◌∷◌, ◌++◌, ltb, eqb}
use nf_safety_hub.Prelude.Text.{Text}
use nf_safety_hub.Prelude.Int.{ℤ}
use nf_safety_hub.Storage.Query.{Page, select_page}
use nf_safety_hub.Storage.Training.Reader.{is_given_as}

pub record AdminOperationPayload : Type 0 where
  pub request_id : Text
  pub admin_user : Text
  pub operation : Text
  pub resource_type : Text
  pub resource_id : Text

-- A row: its id and the time of its writing in seconds, and what was written.
pub record AdminOperation : Type 0 where
  pub id : ℕ
  pub created_at : ℕ
  pub payload : AdminOperationPayload

pub record AdminOperationQuery : Type 0 where
  pub limit : ℤ
  pub offset : ℤ
  pub operation : Text
  pub resource_type : Text

-- `AdminOperationWriter.write`, with the id and the time that the database gives
unfoldable pub write :
    (id now : ℕ) → AdminOperationPayload → List AdminOperation → List AdminOperation
write id now payload table = table ++ record { id = id; created_at = now; payload = payload } ∷ []

-- the filters of `AdminOperationReader.list`
unfoldable pub operation_filters : AdminOperationQuery → AdminOperation → Bool
operation_filters q a =
    is_given_as q.operation a.payload.operation
    && is_given_as q.resource_type a.payload.resource_type

-- `ORDER BY created_at DESC, id DESC`
unfoldable pub newest_first : AdminOperation → AdminOperation → Bool
newest_first a b = ltb b.created_at a.created_at || (eqb a.created_at b.created_at && ltb b.id a.id)

-- `AdminOperationReader.list`
unfoldable pub list : AdminOperationQuery → List AdminOperation → Page AdminOperation
unfolding operation_filters newest_first
list q table = select_page newest_first (operation_filters q) q.limit q.offset table
