-- ===== src/Proxy/Relay/Handler.antt =====
-- proxy/relay.py: `relay_openai_compatible`, from the request to the reply, with what it inspects.
pub mod Inspected
pub mod Payloads
pub mod Events
pub mod Safety
pub mod Branches
use nf_safety_hub.Prelude.{
  ℕ, zero, suc, Bool, true, false, not, ◌&&◌, ◌||◌, Option, none, some, List, [], ◌∷◌, ◌++◌,
  reverse, if◌then◌else◌, is_empty, eqb,
}
use nf_safety_hub.Prelude.Text.{Text, str, ◌==◌, starts_with}
use nf_safety_hub.Json.{Value, null, object, Fields, get_value, truthy, same, is_object}
use nf_safety_hub.Engine.Results.{AggregatedScanResult, any_blocked, Action, block, pass}
use nf_safety_hub.Engine.Scanner.{Scanner, ScannerOrchestrator, scan}
use nf_safety_hub.Proxy.Extract.{chat_completions_path, extract_latest_text_from_request}
use nf_safety_hub.Proxy.Desensitize.{Pattern, desensitize_chat_request_body}
use nf_safety_hub.Proxy.Fake.{generate_fake_response, FakeResponse}
use nf_safety_hub.Proxy.Relay.Run.{Run, Outcome, ok, raised, pure, lift, emit, ◌>>=◌, ◌>>◌}
use nf_safety_hub.Proxy.Relay.{
  Request, read_request_body, action_from_scan_result, ArchivedResponse, streaming, fake_answer,
  answer, Event, images,
}
use nf_safety_hub.Proxy.Relay.Upstream.{
  Gateway, Reply, fake, response, error_response, stream, write_chat_audit, write_chat_archive,
  relay_to_upstream,
}

-- `upstream_path.strip("/")`
abbrev lstrip_slashes : Text → Text
lstrip_slashes [] = []
lstrip_slashes (c ∷ cs) = let rest = lstrip_slashes cs in if eqb c 47 then rest else c ∷ cs

unfoldable pub strip_slashes : Text → Text
strip_slashes path = reverse (lstrip_slashes (reverse (lstrip_slashes path)))

-- What the inspection of a chat request found: it has no text to scan, it is blocked, or it goes on
-- with a rewritten body.
pub data Inspection : Type 0 where
  stopped : (scanned : Text) → AggregatedScanResult → Inspection
  cleared : (scanned : Text) → AggregatedScanResult → (rewritten : Fields) → Inspection

-- `_resolve_desensitize_patterns`: the patterns of the first scanner that has the method
unfoldable pub resolve_desensitize_patterns : List Pattern → List Scanner → List Pattern
resolve_desensitize_patterns phone_patterns [] = phone_patterns
resolve_desensitize_patterns phone_patterns (s ∷ ss) = elim s.desensitize_patterns [
  | some patterns ↦ patterns
  | none ↦ resolve_desensitize_patterns phone_patterns ss
]

abbrev is_fake_streamed : Bool → FakeResponse → ArchivedResponse
is_fake_streamed is_stream reply = if is_stream then streaming else fake_answer reply

-- `_response_archive_body`
abbrev pub response_archive_body : Reply → ArchivedResponse
response_archive_body (fake reply) = fake_answer reply
response_archive_body (response status headers body) = answer status body
response_archive_body (error_response status body) = answer status body
response_archive_body (stream chunks) = streaming

abbrev is_stream_reply : Reply → Bool
is_stream_reply (stream chunks) = true
is_stream_reply _ = false

module _ (g : Gateway) where
  abbrev inspect_rewritten : Text → AggregatedScanResult → Option Fields → Outcome Inspection
  inspect_rewritten text a none = raised 500
  inspect_rewritten text a (some rewritten) = ok (cleared text a rewritten)

  -- the local variables `scanner` and `scan_result`, where the block that assigns them has run
  abbrev Locals : Type 0
  Locals = Option (ScannerOrchestrator × AggregatedScanResult)

  -- Reading a local variable that no statement has assigned raises `UnboundLocalError`.
  abbrev read_locals :
      Locals
      → (ScannerOrchestrator → AggregatedScanResult → Outcome Inspection)
      → Outcome Inspection
  read_locals none continue = raised 500
  read_locals (some (scanner, scan_result)) continue = continue scanner scan_result

  -- the masking after the block, which reads `scanner`
  abbrev mask_body : Fields → Text → Locals → Outcome Inspection
  mask_body body text locals = read_locals locals (λ scanner scan_result.
      inspect_rewritten text scan_result (
        desensitize_chat_request_body g.digit
          (resolve_desensitize_patterns g.phone_patterns scanner.scanners) body))

  abbrev inspect_scanned :
      ScannerOrchestrator → Fields → Text → Option AggregatedScanResult → Outcome Inspection
  inspect_scanned o body text none = raised 500
  inspect_scanned o body text (some a) =
      if any_blocked a then ok (stopped text a) else mask_body body text (some (o, a))

  abbrev inspect_with : Option ScannerOrchestrator → Fields → Text → Outcome Inspection
  inspect_with none body text = raised 503
  inspect_with (some o) body text = inspect_scanned o body text (scan o text)

  -- The block under `if latest_scan_text:` is passed over where there is no text to scan.
  abbrev inspect_text : Fields → Option Text → Outcome Inspection
  inspect_text body none = raised 500
  inspect_text body (some text) =
      if is_empty text then mask_body body text none else inspect_with g.scanner body text

  -- the branch `path == CHAT_COMPLETIONS_PATH` of the handler, up to the relay
  unfoldable pub inspect : Fields → Outcome Inspection
  unfolding resolve_desensitize_patterns
  inspect body =
      inspect_text body (extract_latest_text_from_request chat_completions_path (object body))

  unfoldable pub archive_unless_stream :
      Request
      → Value
      → Value
      → Option AggregatedScanResult
      → Action
      → Bool
      → Reply
      → Run Event Reply
  archive_unless_stream request original body scan_result action_taken is_stream reply =
      if is_stream then ([], ok reply) else (
        write_chat_archive g request original body (response_archive_body reply) scan_result
            action_taken is_stream,
        ok reply,
      )

  -- the blocked branch: a fake answer, an audit record and an archive record
  unfoldable pub reject : Request → Fields → Bool → Text → AggregatedScanResult → Run Event Reply
  reject request body is_stream text a =
      let reply = generate_fake_response g.templates body a is_stream in
      (
        write_chat_audit g request (some a) text block []
            ++ write_chat_archive g request (object body) (object body)
                (is_fake_streamed is_stream reply) (some a) block is_stream,
        ok (fake reply),
      )

  -- audit, relay and archive of a chat request that is not blocked
  unfoldable pub forward :
      Request
      → Value
      → Text
      → Bool
      → Option AggregatedScanResult
      → Text
      → Text
      → Action
      → Value
      → Run Event Reply
  unfolding archive_unless_stream
  forward request original raw is_stream scan_result scanned desensitized action_taken body = do
    emit (write_chat_audit g request scan_result scanned action_taken desensitized) tt
    reply ←
        relay_to_upstream g request chat_completions_path body raw is_stream original scan_result
          action_taken
    archive_unless_stream request original body scan_result action_taken is_stream reply

  abbrev rescanned : Bool → Fields → Option Text
  rescanned was_desensitized rewritten =
      if was_desensitized
      then extract_latest_text_from_request chat_completions_path (object rewritten)
      else some []

  abbrev with_text : Option Text → (Text → Run Event Reply) → Run Event Reply
  with_text none f = ([], raised 500)
  with_text (some t) f = f t

  unfoldable pub continue_chat : Request → Fields → Text → Inspection → Run Event Reply
  unfolding reject forward
  continue_chat request body raw (stopped scanned a) =
      reject request body (truthy (get_value (str "stream") body)) scanned a
  continue_chat request body raw (cleared scanned a rewritten) =
      let was_desensitized = not (same (object rewritten) (object body)) in
      with_text (rescanned was_desensitized rewritten) (λ desensitized.
        forward request (object body) raw (truthy (get_value (str "stream") body)) (some a) scanned
          desensitized (action_from_scan_result (some a) was_desensitized) (object rewritten))

  -- the handler on the chat path, once the body is read; a body that is no dict is not inspected
  unfoldable pub relay_chat : Request → Value → Text → Run Event Reply
  unfolding inspect continue_chat
  relay_chat request (object body) raw = do
    found ← lift (inspect body)
    continue_chat request body raw found
  relay_chat request body raw =
      forward request body raw false none [] [] (action_from_scan_result none false) body

  abbrev is_streaming : Value → Bool
  is_streaming (object body) = truthy (get_value (str "stream") body)
  is_streaming _ = false

  abbrev reply_body : Reply → Option Text
  reply_body (response status headers body) = some body
  reply_body (error_response status body) = some body
  reply_body _ = none

  abbrev image_event : Request → Option Text → List Event
  image_event request none = []
  image_event request (some body) = images request.request_id (g.parse_json body) ∷ []

  -- `_write_image_archive`
  unfoldable pub write_image_archive : Request → Value → Reply → List Event
  write_image_archive request (object original) reply = image_event request (reply_body reply)
  write_image_archive request original reply = []

  -- the handler on any other path: the body is relayed as it came
  unfoldable pub relay_other : Request → Text → Value → Text → Run Event Reply
  unfolding write_image_archive
  relay_other request path body raw = do
    reply ← relay_to_upstream g request path body raw (is_streaming body) body none pass
    emit
        (if starts_with path (str "/v1/images/")
          then write_image_archive request body reply
          else [])
        reply

  -- `relay_openai_compatible`
  unfoldable pub relay_openai_compatible : Request → Run Event Reply
  unfolding relay_chat relay_other strip_slashes
  relay_openai_compatible request =
      let upstream_path = strip_slashes request.upstream_path in
      let path = str "/v1/" ++ upstream_path in
      if is_empty upstream_path then ([], raised 404) else do
        (body, raw) ← lift (read_request_body g.parse_json request path)
        if path == chat_completions_path
            then relay_chat request body raw
            else relay_other request path body raw
