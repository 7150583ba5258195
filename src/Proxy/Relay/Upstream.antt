-- ===== src/Proxy/Relay/Upstream.antt =====
-- proxy/relay.py: `_relay_to_upstream`, the archive and audit records, and proxy/stream.py.
-- A `Gateway` holds what the application's state, its settings and third-party code give: JSON
-- parsing and rendering, the building of URLs, and the answers of the upstream.
use nf_safety_hub.Prelude.{
  ℕ, suc, Bool, true, false, not, ◌&&◌, Option, none, some, List, [], ◌∷◌, ◌++◌, map, filter,
  if◌then◌else◌, is_empty, get_or_else, map_option, leb, take,
}
use nf_safety_hub.Prelude.Text.{Text, str, ◌==◌, is_one_of}
use nf_safety_hub.Prelude.Dict.{Dict}
use nf_safety_hub.Json.{Value, string, object, Fields, get, is_object}
use nf_safety_hub.Engine.Results.{
  AggregatedScanResult, any_hit, block_result, Action, block, desensitize,
}
use nf_safety_hub.Engine.Scanner.{ScannerOrchestrator}
use nf_safety_hub.Proxy.Extract.{chat_completions_path, messages_of}
use nf_safety_hub.Proxy.Desensitize.{Pattern}
use nf_safety_hub.Proxy.Headers.{
  Headers, build_upstream_headers, with_stream_headers, filter_response_headers,
}
use nf_safety_hub.Proxy.Fake.{Templates, FakeResponse}
use nf_safety_hub.Proxy.Collector.{new, add_all, payload}
use nf_safety_hub.Proxy.Relay.Run.{Run, ok, raised}
use nf_safety_hub.Proxy.Relay.{
  Request, json_body_methods, select_relay_payload, Sent, ArchivedResponse, kept_stream,
  ArchivePayload, Delivery, queued, background, dropped, Event, sent, audited, archived,
}

pub data Failure : Type 0 where
  pool_timeout timeout transport_error : Failure

pub data UpstreamReply : Type 0 where
  failed : Failure → UpstreamReply
  responded : (status : ℕ) → Headers → (body : Text) → UpstreamReply

-- An upstream stream: refused before an answer, or answered with a status and chunks, perhaps broken
-- off by a failure. `body` is what `aread` gives for an error status.
pub data StreamReply : Type 0 where
  refused : Failure → StreamReply
  opened :
      (status : ℕ) (content_type body : Text) (chunks : List Text) (broken : Option Failure)
      → StreamReply

pub record Gateway : Type 0 where
  pub parse_json : Text → Option Value
  pub scanner : Option ScannerOrchestrator
  pub digit : ℕ → Bool
  pub phone_patterns : List Pattern
  pub templates : Templates
  pub upstream_url : Text
  pub url_for : (path query : Text) → Text
  pub upstream : Sent → UpstreamReply
  pub upstream_stream : Sent → StreamReply
  pub error_body : Failure → Text
  pub error_event : (status : ℕ) (content body_type : Text) → Text
  pub training_capture_enabled : Bool
  -- whether there is a queue, and whether it has room
  pub archive_queue : Option Bool
  pub training_writer : Bool
  pub audit_writer : Bool
  pub stream_archive_max_bytes : ℕ
  -- how many chunks of a stream the client reads after the first, if it does not read them all
  pub reads : Option ℕ

pub data Reply : Type 0 where
  fake : FakeResponse → Reply
  response : (status : ℕ) → Dict Text → (body : Text) → Reply
  error_response : (status : ℕ) → (body : Text) → Reply
  stream : List Text → Reply

unfoldable pub status_of : Failure → ℕ
status_of pool_timeout = 429
status_of timeout = 504
status_of transport_error = 502

unfoldable pub non_empty : Text → Option Text
non_empty [] = none
non_empty (c ∷ cs) = some (c ∷ cs)

module _ (g : Gateway) where
  abbrev pub deliver : Bool → Delivery
  deliver writer =
      if get_or_else g.archive_queue false then queued else if writer then background else dropped

  -- `_write_chat_audit`
  unfoldable pub write_chat_audit :
      Request → Option AggregatedScanResult → Text → Action → Text → List Event
  write_chat_audit request none scanned_text action_taken desensitized_text = []
  write_chat_audit request (some a) scanned_text action_taken desensitized_text =
      if any_hit a
      then audited (deliver g.audit_writer) (record {
        request_id = request.request_id;
        scan_result = a;
        action_taken = action_taken;
        user_id = request.identity.user_id;
        scanned_text = scanned_text;
        desensitized_text = desensitized_text;
      })
        ∷ []
      else []

  abbrev rule_ids : Option AggregatedScanResult → List Text
  rule_ids none = []
  rule_ids (some a) =
      map (λ r. r.rule_id) (filter (λ r. r.hit && not (is_empty r.rule_id)) a.results)

  abbrev blocking_rule : Option AggregatedScanResult → Text
  blocking_rule none = []
  blocking_rule (some a) = get_or_else (map_option (λ r. r.rule_id) (block_result a)) []

  abbrev pub is_block : Action → Bool
  is_block block = true
  is_block _ = false

  abbrev pub is_desensitize : Action → Bool
  is_desensitize desensitize = true
  is_desensitize _ = false

  abbrev relayed_messages : Fields → Value → Value
  relayed_messages original (object relayed) = messages_of relayed
  relayed_messages original _ = messages_of original

  abbrev archive_payload :
      Request
      → Fields
      → Value
      → ArchivedResponse
      → Option AggregatedScanResult
      → Action
      → Bool
      → ArchivePayload
  archive_payload request original relayed response_body scan_result action_taken is_stream =
      record {
        request_id = request.request_id;
        user_id = request.identity.user_id;
        api_key_id = request.identity.api_key_id;
        model = get_or_else (get (str "model") original) (string []);
        prompt_original = messages_of original;
        prompt_desensitized = relayed_messages original relayed;
        response = response_body;
        is_stream = is_stream;
        is_blocked = is_block action_taken;
        is_desensitized = is_desensitize action_taken;
        action_taken = action_taken;
        blocked_rule_id = blocking_rule scan_result;
        matched_rule_ids = rule_ids scan_result;
      }

  -- `_write_chat_archive`
  unfoldable pub write_chat_archive :
      Request
      → Value
      → Value
      → ArchivedResponse
      → Option AggregatedScanResult
      → Action
      → Bool
      → List Event
  write_chat_archive request (object original) relayed response_body scan_result action_taken
        is_stream =
      if g.training_capture_enabled
      then archived (deliver g.training_writer) (
          archive_payload request original relayed response_body scan_result action_taken is_stream)
        ∷ []
      else []
  write_chat_archive request original relayed response_body scan_result action_taken is_stream = []

  abbrev failure_event : Failure → Text
  failure_event f = g.error_event (status_of f) (str "application/json") (g.error_body f)

  abbrev failure_or : Option Failure → List Text → List Text
  failure_or none chunks = chunks
  failure_or (some f) chunks = failure_event f ∷ []

  -- `SSEStreamProxy.proxy_stream`
  unfoldable pub proxy_stream : StreamReply → List Text
  unfolding status_of
  proxy_stream (refused f) = failure_event f ∷ []
  proxy_stream (opened status content_type body chunks broken) =
      if leb 400 status
      then failure_or broken (g.error_event status content_type body ∷ [])
      else filter (λ chunk. not (is_empty chunk)) chunks ++ failure_or broken []

  -- the chunks that the client takes before it disconnects
  unfoldable pub chunks_read : List Text → List Text
  chunks_read chunks = elim g.reads [ none ↦ chunks | some k ↦ take (suc k) chunks ]

  -- What `_relay_to_upstream` sends, once its checks have passed.
  unfoldable pub upstream_request : Request → Text → Value → Text → Bool → Action → Sent
  upstream_request request path body raw_body is_stream action_taken =
      let headers =
        build_upstream_headers request.headers (some request.request_id)
          (non_empty request.identity.upstream_api_key) in
      record {
        method = request.method;
        url = g.url_for path request.query;
        headers = if is_stream then with_stream_headers headers else headers;
        payload = select_relay_payload request.method body raw_body action_taken;
        stream = is_stream && (is_one_of request.method json_body_methods && is_object body);
      }

  abbrev plain_reply : UpstreamReply → Reply
  plain_reply (failed f) = error_response (status_of f) (g.error_body f)
  plain_reply (responded status headers body) =
      response status (filter_response_headers headers) body

  abbrev pub archive_body : Value → Value → Value
  archive_body original (object body) = object body
  archive_body original _ = original

  -- `_relay_to_upstream` with the streams that it returns read by the client
  unfoldable pub relay_to_upstream :
      Request
      → Text
      → Value
      → Text
      → Bool
      → Value
      → Option AggregatedScanResult
      → Action
      → Run Event Reply
  unfolding upstream_request proxy_stream chunks_read
  relay_to_upstream request path body raw_body is_stream original scan_result action_taken =
      let message = upstream_request request path body raw_body is_stream action_taken in
      let chunks = chunks_read (proxy_stream (g.upstream_stream message)) in
      let kept = payload (add_all (new g.stream_archive_max_bytes) chunks) in
      if is_empty g.upstream_url
      then ([], raised 503)
      else if message.stream
      then (
        sent message
            ∷ (if path == chat_completions_path
                then write_chat_archive request original (archive_body original body)
                    (kept_stream kept) scan_result action_taken true
                else []),
        ok (stream chunks),
      )
      else (sent message ∷ [], ok (plain_reply (g.upstream message)))
