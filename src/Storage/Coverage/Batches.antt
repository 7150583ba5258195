-- ===== src/Storage/Coverage/Batches.antt =====
-- storage/data_governance.py: `_mark_covered_by_group` from one candidate to the groups of a batch.
use nf_safety_hub.Prelude.{
  ℕ, not, ◌||◌, Option, List, [], ◌∷◌, map, reverse, In, All, All-append, All-reverse,
  All-filter_impl, is_empty, ltb, length, ◌≡◌, subst, arith, inl, inr, Bool-cases,
}
use nf_safety_hub.Prelude.Text.{Text, eq→path}
use nf_safety_hub.Json.{Value}
use nf_safety_hub.Storage.Coverage.{
  Conversation, is_prefix_trajectory, Marks, is_covered, candidate_conversations, same_group,
  add_to_groups, groups_from, parse_trajectory, mark_candidate, mark_candidates, mark_conversation,
  mark_conversations, mark_groups, mark_covered_by_group,
}
use nf_safety_hub.Storage.Coverage.Justified.{
  AreDistinct, IsKnown, without_marks, IsCandidate, IsSound, IsKnown-from, cover-IsSound,
}

module _ (loads : Text → Option Value) (rows : List Conversation) where
  mark_candidate-IsSound :
      (by candidate : Conversation) (m : Marks)
      → AreDistinct rows
      → IsKnown rows by
      → IsCandidate loads rows by candidate
      → IsSound loads rows m.table
      → IsSound loads rows (mark_candidate loads by m candidate).table
  unfolding mark_candidate
  mark_candidate-IsSound by candidate m distinct known is_candidate sound =
      elim (Bool-cases (
        is_covered candidate.id m.covered_ids
        || not (is_empty candidate.covered_by_conversation_id))) [
          | inl e ↦ rw e sound
          | inr e ↦
              elim (Bool-cases (
                is_prefix_trajectory (parse_trajectory loads candidate.trajectory)
                  (parse_trajectory loads by.trajectory))) [
                    | inl p ↦
                        rw (e, p)
                          (cover-IsSound loads rows by candidate m.table distinct known is_candidate
                            p sound)
                    | inr p ↦ rw (e, p) sound
                  ]
        ]

  mark_candidates-IsSound :
      (by : Conversation) (m : Marks) (cs : List Conversation)
      → AreDistinct rows
      → IsKnown rows by
      → All (IsCandidate loads rows by) cs
      → IsSound loads rows m.table
      → IsSound loads rows (mark_candidates loads by m cs).table
  unfolding mark_candidates
  mark_candidates-IsSound by m [] distinct known cands sound = sound
  mark_candidates-IsSound by m (c ∷ cs) distinct known cands sound =
      mark_candidates-IsSound by (mark_candidate loads by m c) cs distinct known cands.1
        (mark_candidate-IsSound by c m distinct known cands.0 sound)

  candidate_conversations-All :
      (by : Conversation) (table : List Conversation)
      → map without_marks table ≡ rows
      → All (IsCandidate loads rows by) (candidate_conversations table by)
  unfolding candidate_conversations
  candidate_conversations-All by table e = All-reverse _ _ (
      All-filter_impl (IsKnown rows) _ _ table
        (λ c k t. (
          k,
          (
            eq→path c.user_id by.user_id (ground arith),
            (eq→path c.api_key_id by.api_key_id (ground arith), ground arith),
          ),
        ))
        (IsKnown-from loads rows table (λ c i. subst (λ t. In c t) e i)))

  mark_conversation-IsSound :
      (m : Marks) (c : Conversation)
      → AreDistinct rows
      → IsKnown rows c
      → IsSound loads rows m.table
      → IsSound loads rows (mark_conversation loads m c).table
  unfolding mark_conversation
  mark_conversation-IsSound m c distinct known sound =
      elim (Bool-cases (is_covered c.id m.covered_ids)) [
        | inl e ↦ rw e sound
        | inr e ↦ elim (Bool-cases (ltb (length (parse_trajectory loads c.trajectory)) 2)) [
          | inl f ↦ rw (e, f) sound
          | inr f ↦
              rw (e, f)
                (mark_candidates-IsSound c m _ distinct known
                  (candidate_conversations-All c m.table sound.0) sound)
        ]
      ]

  mark_conversations-IsSound :
      (m : Marks) (cs : List Conversation)
      → AreDistinct rows
      → All (IsKnown rows) cs
      → IsSound loads rows m.table
      → IsSound loads rows (mark_conversations loads m cs).table
  unfolding mark_conversations
  mark_conversations-IsSound m [] distinct ks sound = sound
  mark_conversations-IsSound m (c ∷ cs) distinct ks sound =
      mark_conversations-IsSound (mark_conversation loads m c) cs distinct ks.1
        (mark_conversation-IsSound m c distinct ks.0 sound)

  mark_groups-IsSound :
      (groups : List (List Conversation)) (table : List Conversation) (marked : ℕ)
      → AreDistinct rows
      → All (All (IsKnown rows)) groups
      → IsSound loads rows table
      → IsSound loads rows (mark_groups loads table marked groups).0
  unfolding mark_groups
  mark_groups-IsSound [] table marked distinct ks sound = sound
  mark_groups-IsSound (g ∷ gs) table marked distinct ks sound =
      mark_groups-IsSound gs _ _ distinct ks.1
        (mark_conversations-IsSound _ (reverse g) distinct (All-reverse _ g ks.0) sound)

  add_to_groups-All :
      (c : Conversation) (groups : List (List Conversation))
      → IsKnown rows c
      → All (All (IsKnown rows)) groups
      → All (All (IsKnown rows)) (add_to_groups c groups)
  unfolding add_to_groups
  add_to_groups-All c [] k ks = ((k, tt), tt)
  add_to_groups-All c ([] ∷ gs) k ks = (tt, add_to_groups-All c gs k ks.1)
  add_to_groups-All c ((d ∷ ds) ∷ gs) k ks = elim (Bool-cases (same_group d c)) [
    | inl e ↦ rw e (All-append _ (d ∷ ds) (c ∷ []) ks.0 (k, tt), ks.1)
    | inr e ↦ rw e (ks.0, add_to_groups-All c gs k ks.1)
  ]

  groups_from-All :
      (groups : List (List Conversation)) (cs : List Conversation)
      → All (IsKnown rows) cs
      → All (All (IsKnown rows)) groups
      → All (All (IsKnown rows)) (groups_from groups cs)
  unfolding groups_from
  groups_from-All groups [] ks h = h
  groups_from-All groups (c ∷ cs) ks h =
      groups_from-All (add_to_groups c groups) cs ks.1 (add_to_groups-All c groups ks.0 h)

  -- In a table whose ids are distinct and where each covered conversation has a later one of the same
  -- user and key that has more messages and begins with its own, at least one, each compared as
  -- Python's `==` does, marking a batch of the table's conversations leaves it so, and changes no
  -- other column.
  pub mark_covered_by_group-IsSound :
      (table batch : List Conversation)
      → AreDistinct rows
      → All (IsKnown rows) batch
      → IsSound loads rows table
      → IsSound loads rows (mark_covered_by_group loads table batch).0
  unfolding mark_covered_by_group
  mark_covered_by_group-IsSound table batch distinct ks sound =
      mark_groups-IsSound (groups_from [] batch) table 0 distinct (groups_from-All [] batch ks tt)
        sound
