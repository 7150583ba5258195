-- ===== src/Proxy/Relay/Handler/Branches.antt =====
-- The branches of the chat handler of proxy/relay.py that send nothing, and the other paths.
use nf_safety_hub.Prelude.{true, Option, none, some, [], ◌∷◌, All, ◌≡◌, ◌≢◌, refl}
use nf_safety_hub.Prelude.Text.{Text, str, is_one_of, starts_with}
use nf_safety_hub.Json.{Value, object}
use nf_safety_hub.Engine.Results.{AggregatedScanResult, block, pass}
use nf_safety_hub.Proxy.Relay.Run.{emit, All-bind, All-if}
use nf_safety_hub.Proxy.Relay.{
  Request, json_body_methods, content, select_relay_payload, AuditPayload, Event, sent,
}
use nf_safety_hub.Proxy.Relay.Upstream.{Gateway, Reply, relay_to_upstream, upstream_request}
use nf_safety_hub.Proxy.Relay.Handler.{
  relay_other, write_image_archive, reply_body, image_event, is_streaming,
}
use nf_safety_hub.Proxy.Relay.Handler.Events.{Ignores, All-relay_to_upstream}

-- The event sends nothing upstream.
abbrev pub IsSilent : Event → Type 0
IsSilent (sent s) = ⊥
IsSilent _ = Unit

-- The audit record of a blocked request.
abbrev pub blocked_audit : Request → Text → AggregatedScanResult → AuditPayload
blocked_audit request text a = record {
  request_id = request.request_id;
  scan_result = a;
  action_taken = block;
  user_id = request.identity.user_id;
  scanned_text = text;
  desensitized_text = [];
}

-- If it is a sending, it carries these bytes as they are.
abbrev pub IsVerbatim : Text → Event → Type 0
IsVerbatim raw (sent s) = s.payload ≡ content raw
IsVerbatim raw _ = Unit

IsVerbatim-Ignores : (raw : Text) → Ignores (IsVerbatim raw)
IsVerbatim-Ignores raw = record { audit = λ d p. tt; archive = λ d p. tt }

select-verbatim :
    (method raw : Text) (body : Value)
    → is_one_of method json_body_methods ≡ true
    → raw ≢ []
    → select_relay_payload method body raw pass ≡ content raw
unfolding select_relay_payload
select-verbatim method [] body m ne = absurd (ne refl)
select-verbatim method (c ∷ cs) body m ne = rw m refl

module _ (g : Gateway) (request : Request) (path raw : Text) (body : Value) where
  images-IsVerbatim :
      (reply : Reply) → All (IsVerbatim raw) (write_image_archive g request body reply)
  images-IsVerbatim reply = on_body body
    where
      on_event : (b : Option Text) → All (IsVerbatim raw) (image_event g request b)
      on_event none = tt
      on_event (some b) = (tt, tt)

      on_body : (v : Value) → All (IsVerbatim raw) (write_image_archive g request v reply)
      on_body (object fs) = unfold write_image_archive in on_event (reply_body g reply)
      on_body _ = unfold write_image_archive in tt

  -- On every path but the chat completions, a POST, PUT or PATCH that has a body is relayed with
  -- exactly the bytes that the client sent, whether they parse as JSON or not.
  pub relay_other-IsVerbatim :
      is_one_of request.method json_body_methods ≡ true
      → raw ≢ []
      → All (IsVerbatim raw) (relay_other g request path body raw).0
  unfolding relay_other
  relay_other-IsVerbatim m ne =
      All-bind (IsVerbatim raw)
        (relay_to_upstream g request path body raw (is_streaming g body) body none pass) _
        (All-relay_to_upstream g (IsVerbatim-Ignores raw) request path body raw
          (is_streaming g body) body none pass
          (unfold upstream_request in select-verbatim request.method raw body m ne))
        (λ reply e.
          unfold emit in
          All-if (IsVerbatim raw) (starts_with path (str "/v1/images/")) _ _
            (images-IsVerbatim reply) tt)
