-- ===== src/Proxy/Extract.antt =====
-- proxy/relay.py: which text of a request body is scanned (`extract_latest_text_from_request` and
-- the functions below it).
-- `none` is the `TypeError` that `role not in {...}` raises for a role that is a list or a dict.
pub mod Laws
use nf_safety_hub.Prelude.{
  Bool, true, false, not, ◌||◌, Option, none, some, List, [], ◌∷◌, ◌++◌, map, reverse,
  if◌then◌else◌, is_empty, filter, get_or_else,
}
use nf_safety_hub.Prelude.Text.{Text, str, ◌==◌, is_one_of, starts_with, join}
use nf_safety_hub.Json.{
  Value, null, bool, int, float, string, array, object, Items, nil, cons, Fields, end, field, items,
  get, get_value, as_text,
}

abbrev pub chat_completions_path : Text
chat_completions_path = str "/v1/chat/completions"

unfoldable pub block_scan_roles : List Text
block_scan_roles = str "user" ∷ str "tool" ∷ str "function" ∷ []

-- `message.get("role") in roles`
unfoldable pub has_role : List Text → Fields → Option Bool
has_role roles message = elim (get_value (str "role") message) [
  | string s ↦ some (is_one_of s roles)
  | array _ ↦ none
  | object _ ↦ none
  | _ ↦ some false
]

-- `[text]` if `isinstance(text, str)`, and the parts of the other branch if not
abbrev pub text_or : Value → List Text → List Text
text_or (string t) parts = t ∷ []
text_or _ parts = parts

-- `_extract_content_parts`; the text of one item of a list is its string, its "text" or the parts
-- of its "content".
unfoldable mutual
  pub content_parts : Value → List Text
  content_parts (string s) = s ∷ []
  content_parts (array xs) = list_parts xs
  content_parts _ = []

  pub list_parts : Items → List Text
  list_parts nil = []
  list_parts (cons x xs) = item_parts x ++ list_parts xs

  pub item_parts : Value → List Text
  item_parts (string s) = s ∷ []
  item_parts (object fs) =
      text_or (get_value (str "text") fs) (get_or_else (parts_of_content fs) [])
  item_parts _ = []

  -- `_extract_content_parts(item.get("content"))` if there is such a key
  pub parts_of_content : Fields → Option (List Text)
  parts_of_content end = none
  parts_of_content (field k v fs) =
      let inner = content_parts v in
      let later = parts_of_content fs in if k == str "content" then some inner else later

unfoldable pub newline : Text
newline = 10 ∷ []

-- `"\n".join(part for part in parts if part)`
unfoldable pub join_parts : List Text → Text
unfolding newline
join_parts parts = join newline (filter (λ part. not (is_empty part)) parts)

-- The text of one message, empty for one that the loop passes over.
unfoldable pub message_text : Value → Option Text
message_text (object message) = elim (has_role block_scan_roles message) [
  | none ↦ none
  | some false ↦ some []
  | some true ↦ some (join_parts (content_parts (get_value (str "content") message)))
]
message_text _ = some []

-- the loop of `extract_latest_text_from_messages`, over the reversed list
unfoldable pub latest : List Value → Option Text
latest [] = some []
latest (message ∷ rest) =
    let later = latest rest in
    elim (message_text message) [
      | none ↦ none
      | some text ↦ if is_empty text then later else some text
    ]

unfoldable pub extract_latest_text_from_messages : Value → Option Text
unfolding latest
extract_latest_text_from_messages (array messages) = latest (reverse (items messages))
extract_latest_text_from_messages _ = some []

-- `_collect_text`
unfoldable mutual
  pub collect_text : Value → List Text
  collect_text (string s) = s ∷ []
  collect_text (array xs) = collect_items xs
  collect_text (object fs) = collect_fields fs
  collect_text _ = []

  pub collect_items : Items → List Text
  collect_items nil = []
  collect_items (cons x xs) = collect_text x ++ collect_items xs

  pub collect_fields : Fields → List Text
  collect_fields end = []
  collect_fields (field k v fs) = collect_text v ++ collect_fields fs

unfoldable pub extract_text_from_value : Value → Text
extract_text_from_value value = join_parts (collect_text value)

abbrev text_of_message : Value → List Text
text_of_message (object message) = content_parts (get_value (str "content") message)
text_of_message _ = []

abbrev text_of_messages : List Value → List Text
text_of_messages [] = []
text_of_messages (m ∷ ms) = text_of_message m ++ text_of_messages ms

unfoldable pub extract_text_from_messages : Value → Text
extract_text_from_messages (array messages) = join_parts (text_of_messages (items messages))
extract_text_from_messages _ = []

-- `body.get("messages", [])`
abbrev pub messages_of : Fields → Value
messages_of body = get_or_else (get (str "messages") body) (array nil)

unfoldable pub extract_text_from_request : Text → Value → Text
extract_text_from_request path (object body) =
    if path == chat_completions_path
    then extract_text_from_messages (messages_of body)
    else if path == str "/v1/embeddings"
    then extract_text_from_value (get_value (str "input") body)
    else if path == str "/v1/completions"
    then extract_text_from_value (get_value (str "prompt") body)
    else if path == str "/v1/responses"
    then join_parts (
        extract_text_from_value (get_value (str "input") body)
        ∷ extract_text_from_messages (messages_of body)
        ∷ [])
    else if starts_with path (str "/v1/images/")
    then extract_text_from_value (get_value (str "prompt") body)
    else extract_text_from_value (object body)
extract_text_from_request path _ = []

unfoldable pub extract_latest_text_from_request : Text → Value → Option Text
unfolding extract_latest_text_from_messages extract_text_from_request
extract_latest_text_from_request path (object body) =
    if path == chat_completions_path
    then extract_latest_text_from_messages (messages_of body)
    else some (extract_text_from_request path (object body))
extract_latest_text_from_request path _ = some []
