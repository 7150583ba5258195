-- ===== src/Storage/Training/Reader.antt =====
-- storage/training.py: `TrainingConversationReader`, without its clean-up. `like` is the database's LIKE
-- on a pattern and a text.
use nf_safety_hub.Prelude.{
  ℕ, ◌-◌, min, Bool, true, false, not, ◌&&◌, ◌||◌, Option, none, some, List, [], ◌∷◌, ◌++◌,
  if◌then◌else◌, filter, length, take, is_empty, find, ltb, leb, eqb,
}
use nf_safety_hub.Prelude.Text.{Text, str, ◌==◌}
use nf_safety_hub.Prelude.Dict.{Dict, assign}
use nf_safety_hub.Prelude.Int.{ℤ, at_least}
use nf_safety_hub.Storage.Coverage.{AnalysisStatus, pending, analyzed}
use nf_safety_hub.Storage.Query.{sort_by, count, Page, select_page}
use nf_safety_hub.Storage.Training.{TrainingConversation}

-- A row of the table: its id, its marks, and what the writer gave it.
pub record StoredConversation : Type 0 where
  pub id : ℕ
  pub covered_by_conversation_id : Text
  pub analysis_status : AnalysisStatus
  pub conversation : TrainingConversation

-- A text that is not given and an empty one are the same to the filters.
pub record TrainingConversationQuery : Type 0 where
  pub limit : ℤ
  pub offset : ℤ
  pub user_id : Text
  pub model : Text
  pub action_taken : Text
  pub is_blocked : Bool
  pub keyword : Text
  pub start_time : Option ℕ
  pub end_time : Option ℕ

abbrev pub is_given_as : Text → Text → Bool
is_given_as wanted value = is_empty wanted || value == wanted

abbrev pub is_since : Option ℕ → ℕ → Bool
is_since none time = true
is_since (some start) time = leb start time

abbrev pub is_until : Option ℕ → ℕ → Bool
is_until none time = true
is_until (some end) time = leb time end

-- `ORDER BY created_at DESC, id DESC`
unfoldable pub newest_first : StoredConversation → StoredConversation → Bool
newest_first a b =
    ltb b.conversation.created_at a.conversation.created_at
    || (eqb a.conversation.created_at b.conversation.created_at && ltb b.id a.id)

abbrev pub is_row_covered : StoredConversation → Bool
is_row_covered a = not (is_empty a.covered_by_conversation_id)

abbrev pub is_row_pending : AnalysisStatus → Bool
is_row_pending pending = true
is_row_pending analyzed = false

abbrev pub is_past : ℕ → Option ℕ → Bool
is_past now none = false
is_past now (some time) = leb time now

-- the filter of `_expired_stmt`
abbrev pub is_row_expired : ℕ → StoredConversation → Bool
is_row_expired now a = is_past now a.conversation.expires_at

module _ (like : Text → Text → Bool) where
  abbrev pub has_keyword : Text → StoredConversation → Bool
  has_keyword keyword a =
      let pattern = str "%" ++ (keyword ++ str "%") in
      is_empty keyword
      || (like pattern a.conversation.messages
          || (like pattern a.conversation.assistant_response
              || like pattern a.conversation.trajectory))

  -- `_conversation_filters`: ids are positive, so that nothing passes `id == -1`
  unfoldable pub conversation_filters : TrainingConversationQuery → StoredConversation → Bool
  conversation_filters q a =
      is_given_as q.user_id a.conversation.user_id
      && (is_given_as q.model a.conversation.model
          && ((is_empty q.action_taken || q.action_taken == str "passed")
              && (not q.is_blocked
                  && (has_keyword q.keyword a
                      && (is_since q.start_time a.conversation.created_at
                          && is_until q.end_time a.conversation.created_at)))))

  -- `list`
  unfoldable pub list :
      TrainingConversationQuery → List StoredConversation → Page StoredConversation
  unfolding conversation_filters newest_first
  list q table = select_page newest_first (conversation_filters q) q.limit q.offset table

-- `recent`
unfoldable pub recent : ℤ → List StoredConversation → List StoredConversation
unfolding newest_first
recent limit table =
    take (min (at_least 1 limit) 50)
      (sort_by newest_first (filter (λ a. not (is_row_covered a)) table))

-- `get`
unfoldable pub get : ℕ → List StoredConversation → Option StoredConversation
get conversation_id table = find (λ a. eqb a.id conversation_id) table

pub record TrainingConversationStats : Type 0 where
  pub total : ℕ
  pub blocked : ℕ
  pub desensitized : ℕ
  pub passed : ℕ
  pub by_action : Dict ℕ
  pub by_model : Dict ℕ

-- `GROUP BY model`: a model's rows are counted where the model is met for the last time
unfoldable pub model_rows : List StoredConversation → List StoredConversation → Dict ℕ
model_rows all [] = []
model_rows all (a ∷ table) =
    let rest = model_rows all table in
    let same_model = filter (λ b. b.conversation.model == a.conversation.model) in
    if is_empty (same_model table)
    then (a.conversation.model, length (same_model all)) ∷ rest
    else rest

-- `{key or "unknown": value for key, value in rows}`
unfoldable pub by_model_of : Dict ℕ → Dict ℕ → Dict ℕ
by_model_of d [] = d
by_model_of d ((key, value) ∷ rows) =
    by_model_of (assign (if is_empty key then str "unknown" else key) value d) rows

module _ (like : Text → Text → Bool) where
  -- `stats`
  unfoldable pub stats :
      TrainingConversationQuery → List StoredConversation → TrainingConversationStats
  unfolding conversation_filters model_rows by_model_of
  stats q table =
      let rows = filter (conversation_filters like q) table in
      let total = length rows in
      record {
        total = total;
        blocked = 0;
        desensitized = count (λ a. a.conversation.is_desensitized) rows;
        passed = total;
        by_action = if eqb total 0 then [] else (str "passed", total) ∷ [];
        by_model = by_model_of [] (model_rows rows rows);
      }

pub record TrainingSummary : Type 0 where
  pub total : ℕ
  pub covered : ℕ
  pub pending_analysis : ℕ
  pub active : ℕ
  pub expired : ℕ

-- `summary`
unfoldable pub summary : ℕ → List StoredConversation → TrainingSummary
summary now table =
    let covered = count is_row_covered table in
    record {
      total = length table;
      covered = covered;
      pending_analysis = count (λ a. is_row_pending a.analysis_status) table;
      active = length table - covered;
      expired = count (is_row_expired now) table;
    }
