-- ===== src/Storage/Training/Normalize.antt =====
-- storage/training.py: how messages and answers are normalized before they are stored.
-- `loads` is `json.loads`, `none` where it raises; `repr` is `str` of a value that is not a text.
use nf_safety_hub.Prelude.{
  Bool, true, false, ◌&&◌, ◌||◌, Option, none, some, List, [], ◌∷◌, ◌++◌, if◌then◌else◌, is_empty,
  ltb, eqb,
}
use nf_safety_hub.Prelude.Text.{Text, str, strip}
use nf_safety_hub.Json.{
  Value, null, bool, int, float, string, array, object, Items, nil, cons, Fields, end, field, items,
  get, get_value, truthy,
}

-- `value.replace("\r\n", "\n")`
unfoldable pub replace_crlf : Text → Text
replace_crlf [] = []
replace_crlf (c ∷ []) = c ∷ []
replace_crlf (c ∷ d ∷ ds) =
    let after = replace_crlf ds in
    let rest = replace_crlf (d ∷ ds) in if eqb c 13 && eqb d 10 then 10 ∷ after else c ∷ rest

-- `value.replace("\r", "\n")`
unfoldable pub replace_cr : Text → Text
replace_cr [] = []
replace_cr (c ∷ cs) = (if eqb c 13 then 10 else c) ∷ replace_cr cs

-- `_normalize_text`
unfoldable pub normalize_text : Text → Text
unfolding replace_crlf replace_cr
normalize_text value = strip (replace_cr (replace_crlf value))

-- the order of texts by their code points
unfoldable pub precedes : Text → Text → Bool
precedes [] [] = false
precedes [] (y ∷ ys) = true
precedes (x ∷ xs) [] = false
precedes (x ∷ xs) (y ∷ ys) = ltb x y || eqb x y && precedes xs ys

-- A field at its place among sorted ones: the keys of a dict are distinct.
unfoldable pub insert_field : Text → Value → Fields → Fields
unfolding precedes
insert_field key value end = field key value end
insert_field key value (field k v fs) =
    let rest = insert_field key value fs in
    if precedes key k then field key value (field k v fs) else field k v rest

-- `_normalize_content`
unfoldable mutual
  pub normalize_content : Value → Value
  normalize_content (string s) = string (normalize_text s)
  normalize_content (array xs) = array (normalize_items xs)
  normalize_content (object fs) = object (normalize_fields fs)
  normalize_content null = null
  normalize_content (bool b) = bool b
  normalize_content (int negative n) = int negative n
  normalize_content (float bits) = float bits

  pub normalize_items : Items → Items
  normalize_items nil = nil
  normalize_items (cons v vs) = cons (normalize_content v) (normalize_items vs)

  pub normalize_fields : Fields → Fields
  normalize_fields end = end
  normalize_fields (field k v fs) = insert_field k (normalize_content v) (normalize_fields fs)

abbrev pub message_of : Text → Value → Value
message_of role content =
    object (field (str "role") (string role) (field (str "content") content end))

module _ (loads : Text → Option Value) (repr : Value → Text) where
  -- `str(value)`
  abbrev pub text_of : Value → Text
  text_of (string s) = s
  text_of v = repr v

  abbrev pub loaded : Text → Option Value → Value
  loaded s none = string s
  loaded s (some v) = v

  -- `_loads_json`
  unfoldable pub loads_json : Value → Value
  loads_json (string []) = string []
  loads_json (string (c ∷ cs)) = loaded (c ∷ cs) (loads (c ∷ cs))
  loads_json v = v

  abbrev pub role_of : Option Value → Text
  role_of none = []
  role_of (some v) = strip (text_of v)

  abbrev pub normalize_message : Value → List Value
  normalize_message (object fs) =
      let role = role_of (get (str "role") fs) in
      if is_empty role
      then []
      else message_of role (normalize_content (get_value (str "content") fs)) ∷ []
  normalize_message _ = []

  abbrev pub normalize_all : List Value → List Value
  normalize_all [] = []
  normalize_all (v ∷ vs) = normalize_message v ++ normalize_all vs

  abbrev pub normalize_list : Value → List Value
  normalize_list (array xs) = normalize_all (items xs)
  normalize_list _ = []

  -- `_normalize_messages`: a list is kept as it is by `_loads_json`
  unfoldable pub normalize_messages : Value → List Value
  unfolding loads_json
  normalize_messages value = normalize_list (loads_json value)

  -- `_append_assistant_message`
  unfoldable pub append_assistant_message : List Value → Text → List Value
  append_assistant_message messages response_text =
      messages ++ message_of (str "assistant") (string response_text) ∷ []

  abbrev or_empty : Value → Value
  or_empty v = if truthy v then v else string []

  abbrev answer_of : Value → Text
  answer_of (object fs) = normalize_text (text_of (or_empty (get_value (str "content") fs)))
  answer_of _ = []

  abbrev first_answer : Value → Text
  first_answer (array (cons (object fs) xs)) = answer_of (get_value (str "message") fs)
  first_answer _ = []

  abbrev answer_in : Value → Text
  answer_in (object fs) = first_answer (get_value (str "choices") fs)
  answer_in _ = []

  abbrev answer_from : Value → Text
  answer_from (object fs) =
      if truthy (get_value (str "truncated") fs)
      then []
      else if truthy (get_value (str "message_content") fs)
      then normalize_text (text_of (or_empty (get_value (str "message_content") fs)))
      else answer_in (loads_json (get_value (str "content") fs))
  answer_from _ = []

  -- `_extract_assistant_response`
  unfoldable pub extract_assistant_response : Value → Text
  unfolding loads_json normalize_text
  extract_assistant_response response = answer_from (loads_json response)
