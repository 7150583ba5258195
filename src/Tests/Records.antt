-- ===== src/Tests/Records.antt =====
-- Conversations and audit logs for storage/training.py and storage/audit.py.
use nf_safety_hub.Prelude.{
  ℕ, ◌≤◌, true, false, none, some, List, [], ◌∷◌, ◌++◌, map, is_empty, In, here, there,
  if◌then◌else◌, ◌≡◌, ◌⊎◌, ◌↔◌, refl, arith,
}
use nf_safety_hub.Prelude.Text.{Text, str, ◌==◌, is_one_of, strip}
use nf_safety_hub.Prelude.Dict.{lookup}
use nf_safety_hub.Prelude.Int.{pos, at_least}
use nf_safety_hub.Json.{Value, null, string, array, object, field, end, of_list, same, truthy}
use nf_safety_hub.Engine.Results.{ScannerResult}
use nf_safety_hub.Storage.Coverage.{pending, is_prefix_trajectory, parse_trajectory}
use nf_safety_hub.Storage.Query.{count}
use nf_safety_hub.Storage.Training.{
  ArchivePayload, TrainingConversation, Writer, serialize_json, messages_of, trajectory_of,
  new_conversation, conversations_from, write_many_from_archive_payloads,
}
use nf_safety_hub.Storage.Training.Normalize.{
  extract_assistant_response, normalize_messages, normalize_content, append_assistant_message,
}
use nf_safety_hub.Storage.Training.Provenance.{Provenance, write_many-Provenance}
use nf_safety_hub.Storage.Training.Continuation.{continuation_lem}
use nf_safety_hub.Storage.Training.Reader.{StoredConversation, is_row_covered, is_row_expired}
use nf_safety_hub.Storage.Training.Cleanup.{safe_limit, cleanup}
use nf_safety_hub.Storage.Training.Cleanup.Exact.{HasDistinctIds, cleanup_lem}
use nf_safety_hub.Storage.Audit.{AuditPayload, aggregated, extract_results, log_of, write_many}
use nf_safety_hub.Storage.Audit.Reader.{StoredLog}
use nf_safety_hub.Reports.HighRisk.{
  high_risk_rows, without_snippets, high_risk_rows-without_snippets,
}
use nf_safety_hub.Storage.Audit.Trail.{Evidence, write_many-Evidence, write_many-In}

abbrev message : Text → Text → Value
message role content =
    object (field (str "role") (string role) (field (str "content") (string content) end))

abbrev reply_of : Text → Value
reply_of content = object (field (str "message_content") (string content) end)

abbrev payload : Value → Text → ArchivePayload
payload prompt reply = record {
  request_id = str "r";
  model = str "m";
  capability = str "chat";
  prompt_original = prompt;
  prompt_desensitized = null;
  response = reply_of reply;
  is_blocked = false;
  is_desensitized = false;
  action_taken = str "passed";
  user_id = str "u";
  api_key_id = str "k";
}

abbrev question : List Value
question = message (str "user") (str "hi") ∷ []

abbrev first_trajectory : List Value
first_trajectory = question ++ message (str "assistant") (str "yes") ∷ []

abbrev second_trajectory : List Value
second_trajectory =
    first_trajectory ++ message (str "user") (str "why") ∷ message (str "assistant") (str "so") ∷ []

abbrev asked : ArchivePayload
asked = payload (array (of_list question)) (str "yes")

abbrev continued : ArchivePayload
continued =
    payload (array (of_list (first_trajectory ++ message (str "user") (str "why") ∷ []))) (str "so")

-- JSON for the two trajectories of the test
abbrev writer : Writer
writer = record {
  loads = λ text.
      if text == str "1"
      then some (array (of_list first_trajectory))
      else if text == str "2"
      then some (array (of_list second_trajectory))
      else none;
  dumps = λ v. if same v (array (of_list first_trajectory)) then str "1" else str "2";
  repr = λ v. str "?";
  sha256 = λ text. text;
  archive_retention_days = 30;
}

abbrev uuid_of : ℕ → Text
uuid_of n = n ∷ []

abbrev at_noon : ℕ → ℕ
at_noon n = 43200

abbrev stored : TrainingConversation
stored = new_conversation writer (uuid_of 0) 43200 asked

stored-In :
    In stored (write_many_from_archive_payloads writer uuid_of at_noon [] (asked ∷ continued ∷ []))
unfolding write_many_from_archive_payloads conversations_from extract_assistant_response
    normalize_messages str ◌==◌ is_one_of lookup strip truthy
stored-In = here

write_many-Provenance_example : In stored [] ⊎ Provenance writer (asked ∷ continued ∷ []) stored
write_many-Provenance_example =
    write_many-Provenance writer uuid_of at_noon [] (asked ∷ continued ∷ []) stored stored-In

goes_on :
    messages_of writer continued
    ≡ trajectory_of writer asked ++ message (str "user") (str "why") ∷ []
unfolding extract_assistant_response normalize_messages str ◌==◌ append_assistant_message lookup
    strip normalize_content truthy
goes_on = refl

reads_first :
    writer.loads (serialize_json writer (trajectory_of writer asked))
    ≡ some (array (of_list (trajectory_of writer asked)))
unfolding extract_assistant_response normalize_messages str ◌==◌ append_assistant_message lookup
    strip normalize_content truthy same
reads_first = refl

reads_second :
    writer.loads (serialize_json writer (trajectory_of writer continued))
    ≡ some (array (of_list (trajectory_of writer continued)))
unfolding extract_assistant_response normalize_messages str ◌==◌ append_assistant_message lookup
    strip normalize_content truthy same
reads_second = refl

writes_first : is_empty (serialize_json writer (trajectory_of writer asked)) ≡ false
unfolding extract_assistant_response normalize_messages str ◌==◌ append_assistant_message lookup
    strip normalize_content truthy same
writes_first = refl

writes_second : is_empty (serialize_json writer (trajectory_of writer continued)) ≡ false
unfolding extract_assistant_response normalize_messages str ◌==◌ append_assistant_message lookup
    strip normalize_content truthy same
writes_second = refl

continuation_lem_example :
    is_prefix_trajectory
      (parse_trajectory writer.loads (new_conversation writer (uuid_of 0) 0 asked).trajectory)
      (parse_trajectory writer.loads (new_conversation writer (uuid_of 1) 1 continued).trajectory)
    ≡ true
continuation_lem_example =
    continuation_lem writer (uuid_of 0, uuid_of 1) (0, 1) asked continued
      (message (str "user") (str "why") ∷ []) goes_on writes_first reads_first writes_second
      reads_second

abbrev kept_row : ℕ → Text → StoredConversation
kept_row id by = record {
  id = id;
  covered_by_conversation_id = by;
  analysis_status = pending;
  conversation = stored;
}

abbrev first_row : StoredConversation
first_row = kept_row 1 (str "x")

abbrev kept_rows : List StoredConversation
kept_rows = first_row ∷ kept_row 2 [] ∷ []

kept_rows-HasDistinctIds : HasDistinctIds kept_rows
kept_rows-HasDistinctIds a b here here e = refl
kept_rows-HasDistinctIds a b here (there here) e = absurd (omega arith)
kept_rows-HasDistinctIds a b (there here) here e = absurd (omega arith)
kept_rows-HasDistinctIds a b (there here) (there here) e = refl
kept_rows-HasDistinctIds a b here (there (there j)) e = elim j [ ]
kept_rows-HasDistinctIds a b (there here) (there (there j)) e = elim j [ ]
kept_rows-HasDistinctIds a b (there (there i)) j e = elim i [ ]

few_covered : count is_row_covered kept_rows ≤ safe_limit (pos 5)
unfolding safe_limit at_least str
few_covered = omega arith

few_expired : count (is_row_expired 0) kept_rows ≤ safe_limit (pos 5)
unfolding safe_limit at_least new_conversation
few_expired = omega arith

cleanup_lem_example :
    In first_row (cleanup true true 0 (pos 5) kept_rows).0
    ↔ ((is_row_covered first_row ≡ false) × (is_row_expired 0 first_row ≡ false))
cleanup_lem_example =
    cleanup_lem kept_rows kept_rows-HasDistinctIds 0 (pos 5) first_row here few_covered few_expired

abbrev hit : ScannerResult
hit = record {
  hit = true;
  rule_id = str "rule";
  rule_name = str "a rule";
  level = str "block";
  matched_text = str "bad";
  position = (3, 6);
  scanner_type = str "keyword";
  description = [];
}

abbrev scanned : AuditPayload
scanned = record {
  request_id = str "r";
  scan_result = aggregated (record { results = hit ∷ []; normalized_text = str "so bad!" });
  action_taken = str "blocked";
  user_id = str "u";
  scanned_text = str "so bad!";
  desensitized_text = [];
}

abbrev sha256 : Text → Text
sha256 text = str "hash"

hit-found : In hit (extract_results scanned.scan_result)
unfolding extract_results
hit-found = here

write_many-In_example : In (log_of sha256 scanned hit) (write_many sha256 [] (scanned ∷ []))
write_many-In_example = write_many-In sha256 [] (scanned ∷ []) scanned hit here hit-found refl

hit-logged : In (log_of sha256 scanned hit) (write_many sha256 [] (scanned ∷ []))
unfolding write_many
hit-logged = here

write_many-Evidence_example :
    In (log_of sha256 scanned hit) [] ⊎ Evidence (scanned ∷ []) (log_of sha256 scanned hit)
write_many-Evidence_example =
    write_many-Evidence sha256 [] (scanned ∷ []) (log_of sha256 scanned hit) hit-logged

abbrev stored_log : StoredLog
stored_log = record { id = 1; created_at = 0; log = log_of sha256 scanned hit }

high_risk_rows-without_snippets_example :
    high_risk_rows (map without_snippets (stored_log ∷ [])) false
    ≡ high_risk_rows (stored_log ∷ []) false
high_risk_rows-without_snippets_example = high_risk_rows-without_snippets (stored_log ∷ [])
