-- ===== src/Proxy/Relay/Handler/Safety.antt =====
-- What reaches the upstream of proxy/relay.py: only what has been scanned and masked.
use nf_safety_hub.Prelude.{not, Option, none, some, [], All, All-append, ◌≡◌}
use nf_safety_hub.Prelude.Text.{Text, str}
use nf_safety_hub.Json.{object, Fields, get_value, truthy, same}
use nf_safety_hub.Engine.Results.{AggregatedScanResult, block}
use nf_safety_hub.Proxy.Relay.Run.{Run, ok, lift, All-bind}
use nf_safety_hub.Proxy.Relay.{Request, action_from_scan_result, Event, sent}
use nf_safety_hub.Proxy.Relay.Upstream.{Gateway, Reply, write_chat_audit, upstream_request}
use nf_safety_hub.Proxy.Relay.Handler.{
  Inspection, stopped, cleared, inspect, continue_chat, relay_chat, with_text, rescanned,
}
use nf_safety_hub.Proxy.Relay.Handler.Inspected.{IsInspected, inspect-IsInspected}
use nf_safety_hub.Proxy.Relay.Handler.Payloads.{IsMaskedPayload, select-IsMaskedPayload}
use nf_safety_hub.Proxy.Relay.Handler.Events.{
  Ignores, All-write_chat_audit, All-write_chat_archive, All-forward,
}

-- Such an event may be the sending of a chat request, and then it was inspected: the scan of its
-- newest text did not block, and what is sent is the masked body, or the raw bytes of a body in
-- which there was nothing to mask.
abbrev pub IsSafe : Gateway → Fields → Text → Event → Type 0
IsSafe g body raw (sent s) =
    (text : Text) × (a : AggregatedScanResult) × (rewritten : Fields) × IsInspected g body text a
      rewritten
    × IsMaskedPayload body raw rewritten s.payload
IsSafe g body raw _ = Unit

IsSafe-Ignores : (g : Gateway) (body : Fields) (raw : Text) → Ignores (IsSafe g body raw)
IsSafe-Ignores g body raw = record { audit = λ d p. tt; archive = λ d p. tt }

module _ (g : Gateway) (request : Request) (body : Fields) (raw : Text) where
  with_text-IsSafe :
      (t : Option Text) (f : Text → Run Event Reply)
      → ((text : Text) → All (IsSafe g body raw) (f text).0)
      → All (IsSafe g body raw) (with_text g t f).0
  with_text-IsSafe none f h = tt
  with_text-IsSafe (some t) f h = h t

  continue_chat-IsSafe :
      (i : Inspection)
      → inspect g body ≡ ok i
      → All (IsSafe g body raw) (continue_chat g request body raw i).0
  unfolding continue_chat
  continue_chat-IsSafe (stopped scanned a) e =
      All-append (IsSafe g body raw) (write_chat_audit g request (some a) scanned block []) _
        (All-write_chat_audit g (IsSafe-Ignores g body raw) request (some a) scanned block [])
        (All-write_chat_archive g (IsSafe-Ignores g body raw) request (object body) (object body) _
          (some a) block _)
  continue_chat-IsSafe (cleared scanned a rewritten) e =
      let inspected = inspect-IsInspected g body scanned a rewritten e in
      with_text-IsSafe (rescanned g (not (same (object rewritten) (object body))) rewritten) _
        (λ desensitized.
          All-forward g (IsSafe-Ignores g body raw) request (object body) raw
            (truthy (get_value (str "stream") body)) (some a) scanned desensitized
            (action_from_scan_result (some a) (not (same (object rewritten) (object body))))
            (object rewritten)
            (unfold upstream_request in
              (
                scanned,
                a,
                rewritten,
                inspected,
                select-IsMaskedPayload request.method body rewritten raw a inspected.allowed,
              )))

  -- Nothing of a chat request is sent upstream before its inspection: whatever is sent, the scanner
  -- was there and scanned the newest text, no result blocked, the body was masked by the patterns in
  -- force, and the payload is the masked body, or the raw bytes if masking changed nothing.
  pub relay_chat-IsSafe : All (IsSafe g body raw) (relay_chat g request (object body) raw).0
  unfolding relay_chat lift
  relay_chat-IsSafe =
      All-bind (IsSafe g body raw) (lift (inspect g body)) _ tt (λ i e. continue_chat-IsSafe i e)
