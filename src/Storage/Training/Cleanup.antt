-- ===== src/Storage/Training/Cleanup.antt =====
-- storage/training.py: `preview_cleanup` and `cleanup` of `TrainingConversationReader`.
pub mod Exact
use nf_safety_hub.Prelude.{
  ℕ, ◌+◌, min, Bool, List, [], ◌∷◌, if◌then◌else◌, filter, map, length, take, ltb,
}
use nf_safety_hub.Prelude.Int.{ℤ, at_least}
use nf_safety_hub.Prelude.{Option, none, some, Bool, false, true}
use nf_safety_hub.Storage.Query.{sort_by, delete_ids}
use nf_safety_hub.Storage.Training.Reader.{StoredConversation, is_row_covered, is_row_expired}

pub record TrainingCleanupPreview : Type 0 where
  pub covered : ℕ
  pub expired : ℕ

pub record TrainingCleanupResult : Type 0 where
  pub covered_deleted : ℕ
  pub expired_deleted : ℕ

-- `_safe_limit`
unfoldable pub safe_limit : ℤ → ℕ
unfolding at_least
safe_limit limit = min (at_least 1 limit) 10000

-- `_covered_stmt`
unfoldable pub select_covered : ℕ → List StoredConversation → List ℕ
select_covered limit table =
    map (λ a. a.id)
      (take limit (
        sort_by (λ a b. ltb a.conversation.created_at b.conversation.created_at)
          (filter is_row_covered table)))

abbrev expires_before : Option ℕ → Option ℕ → Bool
expires_before (some a) (some b) = ltb a b
expires_before _ _ = false

-- `_expired_stmt`
unfoldable pub select_expired : ℕ → ℕ → List StoredConversation → List ℕ
select_expired now limit table =
    map (λ a. a.id)
      (take limit (
        sort_by (λ a b. expires_before a.conversation.expires_at b.conversation.expires_at)
          (filter (is_row_expired now) table)))

-- what each kind of clean-up takes, if it is asked for
unfoldable pub covered_ids : Bool → ℕ → List StoredConversation → List ℕ
unfolding select_covered
covered_ids include limit table = if include then select_covered limit table else []

unfoldable pub expired_ids : Bool → ℕ → ℕ → List StoredConversation → List ℕ
unfolding select_expired
expired_ids include now limit table = if include then select_expired now limit table else []

-- `preview_cleanup`
unfoldable pub preview_cleanup :
    Bool → Bool → ℕ → ℤ → List StoredConversation → TrainingCleanupPreview
unfolding covered_ids expired_ids safe_limit
preview_cleanup include_covered include_expired now limit table = record {
  covered = length (covered_ids include_covered (safe_limit limit) table);
  expired = length (expired_ids include_expired now (safe_limit limit) table);
}

-- `cleanup`: an empty list of ids deletes nothing
unfoldable pub cleanup :
    Bool → Bool → ℕ → ℤ → List StoredConversation → List StoredConversation × TrainingCleanupResult
unfolding covered_ids expired_ids safe_limit delete_ids
cleanup include_covered include_expired now limit table =
    let covered = covered_ids include_covered (safe_limit limit) table in
    let expired = expired_ids include_expired now (safe_limit limit) table in
    (
      delete_ids (λ a. a.id) expired (delete_ids (λ a. a.id) covered table),
      record { covered_deleted = length covered; expired_deleted = length expired },
    )
