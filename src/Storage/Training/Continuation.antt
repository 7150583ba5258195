-- ===== src/Storage/Training/Continuation.antt =====
-- storage/training.py and storage/data_governance.py together: a stored conversation, and one that
-- goes on from it.
use nf_safety_hub.Prelude.{
  ℕ, ◌<◌, true, false, some, List, [], ◌∷◌, ◌++◌, is_empty, length, length-append, append_assoc,
  ◌≡◌, refl, sym, subst, arith,
}
use nf_safety_hub.Prelude.Text.{Text}
use nf_safety_hub.Json.{Value, array, of_list, items-of_list}
use nf_safety_hub.Json.Equality.{equals_refl}
use nf_safety_hub.Storage.Training.{
  ArchivePayload, Writer, serialize_json, messages_of, trajectory_of, new_conversation,
}
use nf_safety_hub.Storage.Training.Normalize.{append_assistant_message}
use nf_safety_hub.Storage.Coverage.{is_prefix_trajectory, begins_with, parse_trajectory}

begins_with-append : (xs ys : List Value) → begins_with (xs ++ ys) xs ≡ true
unfolding begins_with
begins_with-append [] ys = refl
begins_with-append (x ∷ xs) ys = rw (equals_refl x) (begins_with-append xs ys)

is_prefix-append :
    (xs ys : List Value)
    → is_empty xs ≡ false
    → 0 < length ys
    → is_prefix_trajectory xs (xs ++ ys) ≡ true
unfolding is_prefix_trajectory
is_prefix-append xs ys e more =
    rw (begins_with-append xs ys, e) (ground (arith, length-append xs ys))

snoc-is_not_empty : (xs : List Value) (x : Value) → is_empty (xs ++ x ∷ []) ≡ false
snoc-is_not_empty [] x = refl
snoc-is_not_empty (y ∷ ys) x = refl

module _ (w : Writer) where
  parse_trajectory-serialized :
      (vs : List Value)
      → is_empty (serialize_json w vs) ≡ false
      → w.loads (serialize_json w vs) ≡ some (array (of_list vs))
      → parse_trajectory w.loads (serialize_json w vs) ≡ vs
  unfolding parse_trajectory
  parse_trajectory-serialized vs e h = rw (e, h) (items-of_list vs)

  -- If the second prompt, normalized, goes on from the first conversation with its answer, then
  -- the analysis takes the first stored trajectory for a prefix of the second, provided that
  -- `json.loads` reads back what `json.dumps` wrote of the two.
  pub continuation_lem :
      (uuids : Text × Text) (times : ℕ × ℕ) (p q : ArchivePayload) (more : List Value)
      → messages_of w q ≡ trajectory_of w p ++ more
      → is_empty (serialize_json w (trajectory_of w p)) ≡ false
      → w.loads (serialize_json w (trajectory_of w p)) ≡ some (array (of_list (trajectory_of w p)))
      → is_empty (serialize_json w (trajectory_of w q)) ≡ false
      → w.loads (serialize_json w (trajectory_of w q)) ≡ some (array (of_list (trajectory_of w q)))
      → is_prefix_trajectory
          (parse_trajectory w.loads (new_conversation w uuids.0 times.0 p).trajectory)
          (parse_trajectory w.loads (new_conversation w uuids.1 times.1 q).trajectory)
        ≡ true
  unfolding new_conversation append_assistant_message
  continuation_lem uuids times p q more goes_on ep hp eq hq =
      rw
        (
          parse_trajectory-serialized (trajectory_of w p) ep hp,
          parse_trajectory-serialized (trajectory_of w q) eq hq,
          goes_on,
        )
        (subst (λ t. is_prefix_trajectory (trajectory_of w p) t ≡ true)
          (sym (append_assoc (trajectory_of w p) more _))
          (is_prefix-append (trajectory_of w p) _ (snoc-is_not_empty (messages_of w p) _)
            (omega (arith, length-append more _))))
