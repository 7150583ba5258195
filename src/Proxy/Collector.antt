-- ===== src/Proxy/Collector.antt =====
-- proxy/relay.py: `StreamArchiveCollector`, which keeps the first bytes of a streamed answer, and
-- `_extract_sse_message_content`, which reads the answer back from the kept bytes.
-- A chunk is the list of its bytes.
pub mod Prefix
use nf_safety_hub.Prelude.{
  ℕ, ◌+◌, ◌-◌, Bool, true, false, not, ◌&&◌, ◌||◌, Option, none, some, List, [], ◌∷◌, ◌++◌,
  if◌then◌else◌, length, take, drop, ltb, leb, eqb, max, is_empty, map_option,
}
use nf_safety_hub.Prelude.Text.{Text, str, ◌==◌, starts_with, strip}
use nf_safety_hub.Json.{Value, null, string, array, object, Items, Fields, items, get_value}

pub record Collector : Type 0 where
  pub max_bytes : ℕ
  pub chunks : List Text
  pub archived_bytes : ℕ
  pub original_bytes : ℕ

-- `StreamArchiveCollector(max_bytes)`
unfoldable pub new : ℕ → Collector
new max_bytes = record {
  max_bytes = max 1 max_bytes;
  chunks = [];
  archived_bytes = 0;
  original_bytes = 0;
}

-- `add`
unfoldable pub add : Collector → Text → Collector
add c chunk =
    let counted = record c { original_bytes = c.original_bytes + length chunk } in
    let archived = take (c.max_bytes - c.archived_bytes) chunk in
    if leb c.max_bytes c.archived_bytes then counted else record counted {
      chunks = c.chunks ++ archived ∷ [];
      archived_bytes = c.archived_bytes + length archived;
    }

unfoldable pub add_all : Collector → List Text → Collector
add_all c [] = c
add_all c (chunk ∷ rest) = add_all (add c chunk) rest

-- `b"".join(chunks)`
abbrev pub concat : List Text → Text
concat [] = []
concat (t ∷ ts) = t ++ concat ts

-- `payload`, with the kept bytes undecoded under `content`
pub record Payload : Type 0 where
  pub content : Text
  pub truncated : Bool
  pub archived_bytes : ℕ
  pub original_bytes : ℕ

unfoldable pub payload : Collector → Payload
payload c = record {
  content = concat c.chunks;
  truncated = ltb c.max_bytes c.original_bytes;
  archived_bytes = c.archived_bytes;
  original_bytes = c.original_bytes;
}

-- the line breaks of `str.splitlines`; "\r" has been replaced before
abbrev is_break : ℕ → Bool
is_break c =
    eqb c 10
    || eqb c 11
    || eqb c 12
    || leb 28 c && leb c 30
    || eqb c 133
    || eqb c 0x2028
    || eqb c 0x2029

abbrev cons_line : ℕ → List Text → List Text
cons_line c [] = (c ∷ []) ∷ []
cons_line c (l ∷ ls) = (c ∷ l) ∷ ls

-- `text.splitlines()`
unfoldable pub splitlines : Text → List Text
splitlines [] = []
splitlines (c ∷ cs) = let rest = splitlines cs in if is_break c then [] ∷ rest else cons_line c rest

-- `raw.replace("\r\n", "\n").replace("\r", "\n")`
unfoldable pub replace_returns : Text → Text
replace_returns [] = []
replace_returns (c ∷ []) = (if eqb c 13 then 10 else c) ∷ []
replace_returns (c ∷ d ∷ cs) =
    let rest = replace_returns (d ∷ cs) in
    if eqb c 13 then (if eqb d 10 then rest else 10 ∷ rest) else c ∷ rest

-- the text under "content" of a dict, if both are what `isinstance` asks for
abbrev text_in : Value → List Text
text_in (object fs) = one (get_value (str "content") fs)
  where
    one : Value → List Text
    one (string s) = s ∷ []
    one _ = []
text_in _ = []

-- the parts that one choice adds
unfoldable pub choice_parts : Value → List Text
choice_parts (object choice) =
    text_in (get_value (str "delta") choice) ++ text_in (get_value (str "message") choice)
choice_parts _ = []

unfoldable pub choices_parts : List Value → List Text
unfolding choice_parts
choices_parts [] = []
choices_parts (c ∷ cs) = choice_parts c ++ choices_parts cs

abbrev parts_of_choices : Value → List Text
parts_of_choices (array choices) = choices_parts (items choices)
parts_of_choices _ = []

abbrev parts_of_event : Option Value → List Text
parts_of_event (some (object event)) = parts_of_choices (get_value (str "choices") event)
parts_of_event _ = []

-- `json.loads` is Python's, and a parameter; `none` is its `JSONDecodeError`
module _ (loads : Text → Option Value) where
  -- one round of the loop over the lines
  unfoldable pub line_parts : Text → List Text
  unfolding choices_parts
  line_parts line =
      let data_ = strip (drop 5 line) in
      if not (starts_with line (str "data:"))
      then []
      else if is_empty data_ || data_ == str "[DONE]"
      then []
      else parts_of_event (loads data_)

  unfoldable pub lines_parts : List Text → List Text
  unfolding line_parts
  lines_parts [] = []
  lines_parts (l ∷ ls) = line_parts l ++ lines_parts ls

  -- `_extract_sse_message_content`
  unfoldable pub extract_sse_message_content : Text → Text
  unfolding lines_parts splitlines replace_returns
  extract_sse_message_content raw_content =
      concat (lines_parts (splitlines (replace_returns raw_content)))
