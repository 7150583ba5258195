-- ===== src/Storage/Training.antt =====
-- storage/training.py: `TrainingConversationWriter`, from archived payloads to stored conversations.
-- A payload has the fields that the writer reads. `dumps` is `json.dumps`, `sha256` the hash in hex.
pub mod Normalize
pub mod Provenance
pub mod Continuation
pub mod Reader
pub mod Cleanup
use nf_safety_hub.Prelude.{
  ℕ, ◌+◌, ◌*◌, Bool, true, false, not, ◌&&◌, ◌||◌, Option, none, some, List, [], ◌∷◌, ◌++◌,
  if◌then◌else◌, is_empty, length, ltb, eqb,
}
use nf_safety_hub.Prelude.Text.{Text, str, ◌==◌, is_one_of}
use nf_safety_hub.Json.{Value, null, array, of_list}
use nf_safety_hub.Storage.Training.Normalize.{
  normalize_messages, append_assistant_message, extract_assistant_response,
}

pub record ArchivePayload : Type 0 where
  pub request_id : Text
  pub model : Text
  pub capability : Text
  pub prompt_original : Value
  pub prompt_desensitized : Value
  pub response : Value
  pub is_blocked : Bool
  pub is_desensitized : Bool
  pub action_taken : Text
  pub user_id : Text
  pub api_key_id : Text

pub record TrainingConversation : Type 0 where
  pub conversation_id : Text
  pub request_id : Text
  pub user_id : Text
  pub api_key_id : Text
  pub model : Text
  pub capability : Text
  pub messages : Text
  pub assistant_response : Text
  pub trajectory : Text
  pub trajectory_hash : Text
  pub prompt_bytes : ℕ
  pub response_bytes : ℕ
  pub is_desensitized : Bool
  pub expires_at : Option ℕ
  pub created_at : ℕ

-- the length in UTF-8
unfoldable pub utf8_length : Text → ℕ
utf8_length [] = 0
utf8_length (c ∷ cs) =
    (if ltb c 128 then 1 else if ltb c 2048 then 2 else if ltb c 65536 then 3 else 4)
    + utf8_length cs

-- `_is_training_candidate`
unfoldable pub is_training_candidate : ArchivePayload → Bool
is_training_candidate p =
    p.capability == str "chat"
    && (is_one_of p.action_taken (str "passed" ∷ str "desensitized" ∷ []) && not p.is_blocked)

abbrev or_original : Value → Value → Value
or_original original null = original
or_original original v = v

abbrev pub prompt : ArchivePayload → Value
prompt p = or_original p.prompt_original p.prompt_desensitized

pub record Writer : Type 0 where
  pub loads : Text → Option Value
  pub dumps : Value → Text
  pub repr : Value → Text
  pub sha256 : Text → Text
  pub archive_retention_days : ℕ

module _ (w : Writer) where
  abbrev pub serialize_json : List Value → Text
  serialize_json messages = w.dumps (array (of_list messages))

  -- `_hash_text`
  unfoldable pub hash_text : Text → Text
  hash_text value = if is_empty value then [] else w.sha256 value

  abbrev pub messages_of : ArchivePayload → List Value
  messages_of p = normalize_messages w.loads w.repr (prompt p)

  abbrev pub answer_to : ArchivePayload → Text
  answer_to p = extract_assistant_response w.loads w.repr p.response

  abbrev pub trajectory_of : ArchivePayload → List Value
  trajectory_of p = append_assistant_message w.loads w.repr (messages_of p) (answer_to p)

  -- the row of a payload, with the id that is drawn for it and the time in seconds
  unfoldable pub new_conversation : Text → ℕ → ArchivePayload → TrainingConversation
  unfolding hash_text utf8_length
  new_conversation uuid now p = record {
    conversation_id = uuid;
    request_id = p.request_id;
    user_id = p.user_id;
    api_key_id = p.api_key_id;
    model = p.model;
    capability = p.capability;
    messages = serialize_json (messages_of p);
    assistant_response = answer_to p;
    trajectory = serialize_json (trajectory_of p);
    trajectory_hash = hash_text (serialize_json (trajectory_of p));
    prompt_bytes = utf8_length (serialize_json (messages_of p));
    response_bytes = utf8_length (answer_to p);
    is_desensitized = p.is_desensitized;
    expires_at =
        if eqb w.archive_retention_days 0
        then none
        else some (now + w.archive_retention_days * 86400);
    created_at = now;
  }

  -- `_conversation_from_payload`
  unfoldable pub conversation_from_payload : Text → ℕ → ArchivePayload → Option TrainingConversation
  unfolding is_training_candidate new_conversation
  conversation_from_payload uuid now p =
      if not (is_training_candidate p)
      then none
      else if is_empty (messages_of p) || is_empty (answer_to p)
      then none
      else some (new_conversation uuid now p)

  abbrev pub kept :
      Option TrainingConversation → List TrainingConversation → List TrainingConversation
  kept none cs = cs
  kept (some c) cs = c ∷ cs

  -- the conversations of a batch; an id is drawn and the time read by the payload's number
  unfoldable pub conversations_from :
      (ℕ → Text) → (ℕ → ℕ) → ℕ → List ArchivePayload → List TrainingConversation
  unfolding conversation_from_payload
  conversations_from uuids now n [] = []
  conversations_from uuids now n (p ∷ ps) =
      kept (conversation_from_payload (uuids n) (now n) p) (conversations_from uuids now (n + 1) ps)

  -- `write_many_from_archive_payloads`: what is stored, if the database takes it
  unfoldable pub write_many_from_archive_payloads :
      (ℕ → Text)
      → (ℕ → ℕ)
      → List TrainingConversation
      → List ArchivePayload
      → List TrainingConversation
  unfolding conversations_from
  write_many_from_archive_payloads uuids now table payloads =
      table ++ conversations_from uuids now 0 payloads

  -- `write_from_archive_payload`
  unfoldable pub write_from_archive_payload :
      (ℕ → Text) → (ℕ → ℕ) → List TrainingConversation → ArchivePayload → List TrainingConversation
  unfolding write_many_from_archive_payloads
  write_from_archive_payload uuids now table payload =
      write_many_from_archive_payloads uuids now table (payload ∷ [])
