-- ===== src/Tests/Relay.antt =====
-- Chat requests for the handler of proxy/relay.py.
use nf_safety_hub.Prelude.{leb, true, false, ◌&&◌, none, some, [], ◌∷◌, ◌++◌, All, ◌≡◌, ◌≢◌, refl}
use nf_safety_hub.Prelude.Text.{Text, str, is_one_of, ◌==◌, join}
use nf_safety_hub.Prelude.Dict.{lookup}
use nf_safety_hub.Json.{Value, string, array, object, nil, cons, Fields, end, field}
use nf_safety_hub.Engine.Scanner.{ScannerOrchestrator, scan}
use nf_safety_hub.Engine.Keyword
use nf_safety_hub.Proxy.Extract.{
  chat_completions_path, extract_latest_text_from_request, has_role, block_scan_roles, message_text,
  join_parts, content_parts,
}
use nf_safety_hub.Proxy.Relay.{Request, json_body_methods}
use nf_safety_hub.Proxy.Relay.Upstream.{Gateway, transport_error, failed, refused}
use nf_safety_hub.Proxy.Relay.Handler.{relay_chat, relay_other}
use nf_safety_hub.Proxy.Relay.Handler.Safety.{IsSafe, relay_chat-IsSafe}
use nf_safety_hub.Proxy.Relay.Handler.Branches.{IsVerbatim, relay_other-IsVerbatim}
use nf_safety_hub.Tests.Engine.{strict_orchestrator, bad_text}

abbrev gateway : ScannerOrchestrator → Gateway
gateway o = record {
  parse_json = λ text. none;
  scanner = some o;
  digit = λ c. leb 48 c && leb c 57;
  phone_patterns = [];
  templates = record { block = str "blocked"; warn = str "warned" };
  upstream_url = str "http://upstream";
  url_for = λ path query. path ++ query;
  upstream = λ message. failed transport_error;
  upstream_stream = λ message. refused transport_error;
  error_body = λ f. str "error";
  error_event = λ status content kind. content;
  training_capture_enabled = true;
  archive_queue = some true;
  training_writer = true;
  audit_writer = true;
  stream_archive_max_bytes = 100;
  reads = none;
}

abbrev request : Request
request = record {
  method = str "POST";
  upstream_path = str "chat/completions";
  query = [];
  headers = (str "content-type", str "application/json") ∷ [];
  body = some (str "{}");
  request_id = str "r1";
  identity = record {
    api_key_id = str "k1";
    user_id = str "u1";
    upstream_api_key = str "key";
    key_prefix = [];
  };
}

abbrev message : Text → Text → Value
message role text =
    object (field (str "role") (string role) (field (str "content") (string text) end))

abbrev body_of : Value → Fields
body_of m = field (str "messages") (array (cons m nil)) end

abbrev bad_body : Fields
bad_body = body_of (message (str "user") bad_text)

abbrev system_body : Fields
system_body = body_of (message (str "system") bad_text)

abbrev good_body : Fields
good_body = body_of (message (str "user") (str "so good"))

abbrev raw : Text
raw = str "{}"

system_body-text :
    extract_latest_text_from_request chat_completions_path (object system_body) ≡ some []
unfolding extract_latest_text_from_request lookup str ◌==◌ message_text has_role is_one_of
    block_scan_roles join_parts join content_parts
system_body-text = refl

relay_chat-IsSafe_example :
    All
      (IsSafe (gateway strict_orchestrator) good_body raw)
      (relay_chat (gateway strict_orchestrator) request (object good_body) raw).0
relay_chat-IsSafe_example = relay_chat-IsSafe (gateway strict_orchestrator) request good_body raw

abbrev broken_orchestrator : ScannerOrchestrator
broken_orchestrator = record {
  scanners = record { name = str "broken"; scan = λ text. none; desensitize_patterns = none } ∷ [];
  normalize = λ text. text;
  fail_open = false;
}

bad_text-unscanned : scan broken_orchestrator bad_text ≡ none
unfolding scan
bad_text-unscanned = refl

request-has_body : is_one_of request.method json_body_methods ≡ true
unfolding is_one_of json_body_methods str ◌==◌
request-has_body = refl

raw-not_empty : raw ≢ []
unfolding str
raw-not_empty e = absurd (cc e)

relay_other-IsVerbatim_example :
    All
      (IsVerbatim raw)
      (relay_other
        (gateway strict_orchestrator)
        request
        (str "/v1/embeddings")
        (object bad_body)
        raw).0
relay_other-IsVerbatim_example =
    relay_other-IsVerbatim (gateway strict_orchestrator) request (str "/v1/embeddings") raw
      (object bad_body) request-has_body raw-not_empty
