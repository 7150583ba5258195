-- ===== src/Proxy/Relay.antt =====
-- proxy/relay.py: the handler `relay_openai_compatible` and the functions that it calls.
-- What the handler does to the world is a list of events, in order: a request sent upstream, an audit
-- record, an archive record. Times are left out. `raised` is an HTTPException by its status; 500
-- stands for every exception that the handler does not catch.
pub mod Run
pub mod Upstream
pub mod Handler
use nf_safety_hub.Prelude.{
  ℕ, zero, suc, Bool, true, false, not, ◌&&◌, ◌||◌, Option, none, some, List, [], ◌∷◌, ◌++◌, map,
  reverse, filter, if◌then◌else◌, is_empty, is_some, get_or_else, map_option, eqb, leb, take,
}
use nf_safety_hub.Prelude.Text.{Text, str, ◌==◌, is_one_of, starts_with, lower}
use nf_safety_hub.Prelude.Dict.{Dict}
use nf_safety_hub.Json.{
  Value, null, bool, int, float, string, array, object, nil, Fields, get, get_value, truthy, same,
  is_object,
}
use nf_safety_hub.Engine.Results.{
  ScannerResult, AggregatedScanResult, any_hit, any_blocked, block_result, Action, block,
  desensitize, warn, pass, action,
}
use nf_safety_hub.Engine.Scanner.{Scanner, ScannerOrchestrator, scan}
use nf_safety_hub.Proxy.Extract.{
  chat_completions_path, extract_latest_text_from_request, messages_of,
}
use nf_safety_hub.Proxy.Desensitize.{Pattern, desensitize_chat_request_body}
use nf_safety_hub.Proxy.Headers.{
  Headers, build_upstream_headers, with_stream_headers, filter_response_headers,
}
use nf_safety_hub.Proxy.Fake.{Templates, FakeResponse, generate_fake_response}
use nf_safety_hub.Proxy.Collector.{Payload, new, add_all, payload}
use nf_safety_hub.Proxy.Relay.Run.{Outcome, ok, raised}

pub record RequestIdentity : Type 0 where
  pub api_key_id : Text
  pub user_id : Text
  pub upstream_api_key : Text
  pub key_prefix : Text

-- `body` is `none` if the client disconnects while it is read.
pub record Request : Type 0 where
  pub method : Text
  pub upstream_path : Text
  pub query : Text
  pub headers : Headers
  pub body : Option Text
  pub request_id : Text
  pub identity : RequestIdentity

unfoldable pub json_body_methods : List Text
json_body_methods = str "POST" ∷ str "PUT" ∷ str "PATCH" ∷ []

unfoldable pub known_json_endpoints : List Text
known_json_endpoints =
    chat_completions_path
    ∷ str "/v1/embeddings"
    ∷ str "/v1/completions"
    ∷ str "/v1/responses"
    ∷ str "/v1/images/generations"
    ∷ str "/v1/images/edits"
    ∷ str "/v1/images/variations"
    ∷ []

-- `request.headers.get(name, "")` of Starlette, for a name in lower case
unfoldable pub header : Text → Headers → Text
header name [] = []
header name ((k, v) ∷ rest) = if lower k == name then v else header name rest

-- `needle in text`
unfoldable pub contains : Text → Text → Bool
contains needle [] = is_empty needle
contains needle (c ∷ cs) = starts_with (c ∷ cs) needle || contains needle cs

-- the last checks of `_read_request_body`, on what `request.json()` returned
abbrev pub parsed_body : Bool → Text → Option Value → Outcome (Value × Text)
parsed_body is_known raw none = if is_known then raised 400 else ok (null, raw)
parsed_body is_known raw (some body) =
    if is_known && not (is_object body) then raised 400 else ok (body, raw)

abbrev pub body_of_raw : (Text → Option Value) → Request → Text → Text → Outcome (Value × Text)
body_of_raw parse_json request path raw =
    let is_known = is_one_of path known_json_endpoints in
    let content_type = lower (header (str "content-type") request.headers) in
    if is_empty raw
    then ok (null, raw)
    else if not (is_known || contains (str "application/json") content_type)
    then ok (null, raw)
    else parsed_body is_known raw (parse_json raw)

-- `_read_request_body`; `parse_json` is Starlette's `request.json()`, `none` where it raises
unfoldable pub read_request_body : (Text → Option Value) → Request → Text → Outcome (Value × Text)
read_request_body parse_json request path =
    if not (is_one_of request.method json_body_methods) then ok (null, []) else elim request.body [
      | none ↦ raised 499
      | some raw ↦ body_of_raw parse_json request path raw
    ]

pub data Capability : Type 0 where
  embedding vision file_upload chat : Capability

-- `_infer_capability`
unfoldable pub infer_capability : Text → Capability
infer_capability path =
    if path == str "/v1/embeddings"
    then embedding
    else if starts_with path (str "/v1/images/")
    then vision
    else if starts_with path (str "/v1/files")
    then file_upload
    else chat

-- What `_select_relay_payload` chooses: nothing, the parsed body encoded again, or the raw bytes.
pub data RelayPayload : Type 0 where
  no_body : RelayPayload
  json : Value → RelayPayload
  content : Text → RelayPayload

abbrev is_desensitize : Action → Bool
is_desensitize desensitize = true
is_desensitize _ = false

abbrev is_null : Value → Bool
is_null null = true
is_null _ = false

unfoldable pub select_relay_payload : Text → Value → Text → Action → RelayPayload
unfolding json_body_methods
select_relay_payload method body raw_body action_taken =
    if not (is_one_of method json_body_methods)
    then no_body
    else if is_desensitize action_taken && is_object body
    then json body
    else if not (is_empty raw_body)
    then content raw_body
    else if not (is_null body)
    then json body
    else no_body

-- `_action_from_scan_result`
unfoldable pub action_from_scan_result : Option AggregatedScanResult → Bool → Action
action_from_scan_result none was_desensitized = if was_desensitized then desensitize else pass
action_from_scan_result (some a) was_desensitized =
    if any_blocked a then block else if was_desensitized then desensitize else action a

-- A request as it is sent upstream.
pub record Sent : Type 0 where
  pub method : Text
  pub url : Text
  pub headers : Dict Text
  pub payload : RelayPayload
  pub stream : Bool

pub record AuditPayload : Type 0 where
  pub request_id : Text
  pub scan_result : AggregatedScanResult
  pub action_taken : Action
  pub user_id : Text
  pub scanned_text : Text
  pub desensitized_text : Text

-- The answers that are archived: one with its media type and content, or what was kept of a stream.
-- A streamed fake answer is archived as `{"stream": True}`.
pub data ArchivedResponse : Type 0 where
  streaming : ArchivedResponse
  fake_answer : FakeResponse → ArchivedResponse
  answer : (status : ℕ) → (body : Text) → ArchivedResponse
  kept_stream : Payload → ArchivedResponse

pub record ArchivePayload : Type 0 where
  pub request_id : Text
  pub user_id : Text
  pub api_key_id : Text
  pub model : Value
  pub prompt_original : Value
  pub prompt_desensitized : Value
  pub response : ArchivedResponse
  pub is_stream : Bool
  pub is_blocked : Bool
  pub is_desensitized : Bool
  pub action_taken : Action
  pub blocked_rule_id : Text
  pub matched_rule_ids : List Text

-- Where a record goes: the archive queue, a task of its own if there is no queue or no room in it,
-- or nowhere if there is no writer either.
pub data Delivery : Type 0 where
  queued background dropped : Delivery

pub data Event : Type 0 where
  sent : Sent → Event
  audited : Delivery → AuditPayload → Event
  archived : Delivery → ArchivePayload → Event
  -- an image answer, parsed if it is JSON, handed to the archiver of image assets
  images : (request_id : Text) → Option Value → Event
