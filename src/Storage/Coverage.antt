-- ===== src/Storage/Coverage.antt =====
-- storage/data_governance.py: the coverage analysis, which marks the conversations that a later one of
-- the same user and key continues. The table of conversations is a list in the order of its ids.
-- `loads` is `json.loads`, `none` where it raises. A query flushes the marks made before it.
pub mod Job
pub mod Justified
pub mod Batches
use nf_safety_hub.Prelude.{
  ℕ, suc, ◌+◌, Bool, true, false, not, ◌&&◌, ◌||◌, Option, none, some, List, [], ◌∷◌, ◌++◌, map,
  reverse, filter, any, if◌then◌else◌, is_empty, ltb, leb, eqb, length, take,
}
use nf_safety_hub.Prelude.Text.{Text, ◌==◌}
use nf_safety_hub.Json.{Value, null, array, items}
use nf_safety_hub.Json.Equality.{equals}

pub data AnalysisStatus : Type 0 where
  pending analyzed : AnalysisStatus

-- A row of `TrainingConversation`, with the columns that the analysis uses.
pub record Conversation : Type 0 where
  pub id : ℕ
  pub conversation_id : Text
  pub user_id : Text
  pub api_key_id : Text
  pub trajectory : Text
  pub covered_by_conversation_id : Text
  pub analysis_status : AnalysisStatus

-- the items of a parsed trajectory
abbrev pub list_of : Option Value → List Value
list_of (some (array xs)) = items xs
list_of _ = []

-- `trajectory[:n] == candidate` for a candidate of `n` items
unfoldable pub begins_with : List Value → List Value → Bool
begins_with values [] = true
begins_with [] (c ∷ cs) = false
begins_with (v ∷ vs) (c ∷ cs) = equals v c && begins_with vs cs

-- `_is_prefix_trajectory`
unfoldable pub is_prefix_trajectory : List Value → List Value → Bool
unfolding begins_with
is_prefix_trajectory candidate trajectory =
    not (is_empty candidate)
    && (ltb (length candidate) (length trajectory) && begins_with trajectory candidate)

-- the marks of one group: the table, the ids that are covered and the number of marks
pub record Marks : Type 0 where
  pub table : List Conversation
  pub covered_ids : List ℕ
  pub marked : ℕ

-- the row of this id is covered by the conversation
abbrev pub cover : ℕ → Text → Conversation → Conversation
cover id by c = if eqb c.id id then record c { covered_by_conversation_id = by } else c

unfoldable pub is_covered : ℕ → List ℕ → Bool
is_covered id ids = any (eqb id) ids

-- `_candidate_conversations`
unfoldable pub candidate_conversations : List Conversation → Conversation → List Conversation
candidate_conversations table conversation = reverse (
    filter
      (λ c.
        is_empty c.covered_by_conversation_id
        && (c.user_id == conversation.user_id
            && (c.api_key_id == conversation.api_key_id && ltb c.id conversation.id)))
      table)

-- a key of `groups`
abbrev pub same_group : Conversation → Conversation → Bool
same_group c d = c.user_id == d.user_id && c.api_key_id == d.api_key_id

-- `groups.values()`: the members of the first one's group, then the groups of the others
unfoldable pub add_to_groups : Conversation → List (List Conversation) → List (List Conversation)
add_to_groups c [] = (c ∷ []) ∷ []
add_to_groups c ([] ∷ groups) = [] ∷ add_to_groups c groups
add_to_groups c ((d ∷ ds) ∷ groups) =
    let later = add_to_groups c groups in
    if same_group d c then ((d ∷ ds) ++ c ∷ []) ∷ groups else (d ∷ ds) ∷ later

unfoldable pub groups_from : List (List Conversation) → List Conversation → List (List Conversation)
unfolding add_to_groups
groups_from groups [] = groups
groups_from groups (c ∷ cs) = groups_from (add_to_groups c groups) cs

module _ (loads : Text → Option Value) where
  -- `_parse_trajectory`
  unfoldable pub parse_trajectory : Text → List Value
  parse_trajectory value = if is_empty value then [] else list_of (loads value)

  -- one round of the loop over the candidates
  unfoldable pub mark_candidate : Conversation → Marks → Conversation → Marks
  unfolding is_covered
  mark_candidate conversation m candidate =
      let seen = record m { covered_ids = candidate.id ∷ m.covered_ids } in
      if is_covered candidate.id m.covered_ids
        || not (is_empty candidate.covered_by_conversation_id)
      then seen
      else if is_prefix_trajectory (parse_trajectory candidate.trajectory)
          (parse_trajectory conversation.trajectory)
      then record seen {
        table = map (cover candidate.id conversation.conversation_id) m.table;
        marked = m.marked + 1;
      }
      else m

  unfoldable pub mark_candidates : Conversation → Marks → List Conversation → Marks
  unfolding mark_candidate
  mark_candidates conversation m [] = m
  mark_candidates conversation m (c ∷ cs) =
      mark_candidates conversation (mark_candidate conversation m c) cs

  -- one round of the loop over a group
  unfoldable pub mark_conversation : Marks → Conversation → Marks
  unfolding mark_candidates candidate_conversations
  mark_conversation m conversation =
      if is_covered conversation.id m.covered_ids
      then m
      else if ltb (length (parse_trajectory conversation.trajectory)) 2
      then m
      else mark_candidates conversation m (candidate_conversations m.table conversation)

  unfoldable pub mark_conversations : Marks → List Conversation → Marks
  unfolding mark_conversation
  mark_conversations m [] = m
  mark_conversations m (c ∷ cs) = mark_conversations (mark_conversation m c) cs

  -- The batch is in the order of the ids, so that each group is sorted the other way by reversing it.
  unfoldable pub mark_groups :
      List Conversation → ℕ → List (List Conversation) → List Conversation × ℕ
  unfolding mark_conversations
  mark_groups table marked [] = (table, marked)
  mark_groups table marked (group ∷ groups) =
      let covered = filter (λ c. not (is_empty c.covered_by_conversation_id)) group in
      let m =
        mark_conversations
          (record { table = table; covered_ids = map (λ c. c.id) covered; marked = marked })
          (reverse group) in
      mark_groups m.table m.marked groups

  -- `_mark_covered_by_group`: the table with the marks, and their number
  unfoldable pub mark_covered_by_group :
      List Conversation → List Conversation → List Conversation × ℕ
  unfolding mark_groups groups_from
  mark_covered_by_group table conversations = mark_groups table 0 (groups_from [] conversations)
