-- ===== src/Proxy/Relay/Handler/Events.antt =====
-- Which events the parts of the handler of proxy/relay.py can have.
use nf_safety_hub.Prelude.{Bool, true, Option, none, some, is_empty, All, inl, inr, Bool-cases}
use nf_safety_hub.Prelude.Text.{Text, ◌==◌}
use nf_safety_hub.Json.{Value, object}
use nf_safety_hub.Engine.Results.{AggregatedScanResult, any_hit, Action}
use nf_safety_hub.Proxy.Extract.{chat_completions_path}
use nf_safety_hub.Proxy.Relay.Run.{emit, All-bind, All-if_run, All-if}
use nf_safety_hub.Proxy.Relay.{
  Request, Delivery, AuditPayload, ArchivePayload, ArchivedResponse, Event, sent, audited, archived,
}
use nf_safety_hub.Proxy.Relay.Upstream.{
  Gateway, Reply, write_chat_audit, write_chat_archive, relay_to_upstream, upstream_request,
  archive_body,
}
use nf_safety_hub.Proxy.Relay.Handler.{forward, archive_unless_stream, response_archive_body}

-- Events that are no sending have the property.
pub record Ignores (P : Event → Type 0) : Type 0 where
  pub audit : (d : Delivery) (p : AuditPayload) → P (audited d p)
  pub archive : (d : Delivery) (p : ArchivePayload) → P (archived d p)

module _ (g : Gateway) {P : Event → Type 0} (q : Ignores P) where
  pub All-write_chat_audit :
      (request : Request) (r : Option AggregatedScanResult) (scanned : Text) (act : Action)
      (masked : Text)
      → All P (write_chat_audit g request r scanned act masked)
  unfolding write_chat_audit
  All-write_chat_audit request none scanned act masked = tt
  All-write_chat_audit request (some a) scanned act masked = elim (Bool-cases (any_hit a)) [
    | inl e ↦ rw e (q.audit _ _, tt)
    | inr e ↦ rw e tt
  ]

  pub All-write_chat_archive :
      (request : Request) (original relayed : Value) (r : ArchivedResponse)
      (scan_result : Option AggregatedScanResult) (act : Action) (is_stream : Bool)
      → All P (write_chat_archive g request original relayed r scan_result act is_stream)
  unfolding write_chat_archive
  All-write_chat_archive request (object original) relayed r scan_result act is_stream =
      elim (Bool-cases g.training_capture_enabled) [
        | inl e ↦ rw e (q.archive _ _, tt)
        | inr e ↦ rw e tt
      ]
  All-write_chat_archive request _ relayed r scan_result act is_stream = tt

  pub All-relay_to_upstream :
      (request : Request) (path : Text) (body : Value) (raw : Text) (is_stream : Bool)
      (original : Value) (scan_result : Option AggregatedScanResult) (act : Action)
      → P (sent (upstream_request g request path body raw is_stream act))
      → All P (relay_to_upstream g request path body raw is_stream original scan_result act).0
  unfolding relay_to_upstream
  All-relay_to_upstream request path body raw is_stream original scan_result act p =
      All-if_run P (is_empty g.upstream_url) _ _ tt (
        All-if_run P (upstream_request g request path body raw is_stream act).stream _ _
          (
            p,
            All-if P (path == chat_completions_path) _ _
                (All-write_chat_archive request original (archive_body g original body) _
                  scan_result act true)
                tt,
          )
          (p, tt))

  pub All-forward :
      (request : Request) (original : Value) (raw : Text) (is_stream : Bool)
      (scan_result : Option AggregatedScanResult) (scanned masked : Text) (act : Action)
      (body : Value)
      → P (sent (upstream_request g request chat_completions_path body raw is_stream act))
      → All P (forward g request original raw is_stream scan_result scanned masked act body).0
  unfolding forward
  All-forward request original raw is_stream scan_result scanned masked act body p =
      All-bind P (emit (write_chat_audit g request scan_result scanned act masked) tt) _
        (unfold emit in All-write_chat_audit request scan_result scanned act masked)
        (λ u e.
          All-bind P
            (relay_to_upstream g request chat_completions_path body raw is_stream original
              scan_result act)
            _
            (All-relay_to_upstream request chat_completions_path body raw is_stream original
              scan_result act p)
            (λ reply e'. archives reply))
    where
      archives :
          (reply : Reply)
          → All P (archive_unless_stream g request original body scan_result act is_stream reply).0
      archives reply = All-if_run P is_stream _ _ tt (
          All-write_chat_archive request original body (response_archive_body reply) scan_result act
            is_stream)
