-- ===== src/Proxy/Relay/Handler/Inspected.antt =====
-- What an inspection of proxy/relay.py that lets a chat request go on has established.
use nf_safety_hub.Prelude.{
  false, Option, none, some, List, [], ◌∷◌, ◌≡◌, refl, inl, inr, Bool-cases,
}
use nf_safety_hub.Prelude.Text.{Text}
use nf_safety_hub.Json.{object, Fields}
use nf_safety_hub.Engine.Results.{AggregatedScanResult, any_blocked}
use nf_safety_hub.Engine.Scanner.{ScannerOrchestrator, scan}
use nf_safety_hub.Proxy.Extract.{chat_completions_path, extract_latest_text_from_request}
use nf_safety_hub.Proxy.Desensitize.{Pattern, desensitize_chat_request_body}
use nf_safety_hub.Proxy.Relay.Run.{Outcome, ok}
use nf_safety_hub.Proxy.Relay.Upstream.{Gateway}
use nf_safety_hub.Proxy.Relay.Handler.{
  Inspection, cleared, resolve_desensitize_patterns, inspect_rewritten, inspect_scanned,
  inspect_with, inspect_text, inspect,
}

-- What a chat request has gone through before any part of it is sent.
pub record IsInspected (g : Gateway) (body : Fields) (text : Text) (result : AggregatedScanResult)
    (rewritten : Fields) : Type 0 where
  pub orchestrator : ScannerOrchestrator
  pub present : g.scanner ≡ some orchestrator
  pub latest : extract_latest_text_from_request chat_completions_path (object body) ≡ some text
  pub scanned : scan orchestrator text ≡ some result
  pub allowed : any_blocked result ≡ false
  pub masked :
      desensitize_chat_request_body g.digit
        (resolve_desensitize_patterns g.phone_patterns orchestrator.scanners)
        body
      ≡ some rewritten

abbrev pub patterns_of : Gateway → ScannerOrchestrator → List Pattern
patterns_of g o = resolve_desensitize_patterns g.phone_patterns o.scanners

module _ (g : Gateway) (body : Fields) (scanned : Text) (a : AggregatedScanResult)
    (rewritten : Fields) where
  abbrev Clears : Outcome Inspection → Type 0
  Clears r = r ≡ ok (cleared scanned a rewritten)

  module _ (o : ScannerOrchestrator) (text : Text) (present : g.scanner ≡ some o)
      (latest : extract_latest_text_from_request chat_completions_path (object body)
        ≡ some text) where
    on_masked :
        (result : AggregatedScanResult) (m : Option Fields)
        → scan o text ≡ some result
        → any_blocked result ≡ false
        → desensitize_chat_request_body g.digit (patterns_of g o) body ≡ m
        → Clears (inspect_rewritten g text result m)
        → IsInspected g body scanned a rewritten
    on_masked result none q allowed d e = absurd (cc)
    on_masked result (some r) q allowed d e = record {
      orchestrator = o;
      present = present;
      latest = cc (latest, e);
      scanned = cc (q, e);
      allowed = cc (allowed, e);
      masked = cc (d, e);
    }

    on_scan :
        (r : Option AggregatedScanResult)
        → scan o text ≡ r
        → Clears (inspect_scanned g o body text r)
        → IsInspected g body scanned a rewritten
    on_scan none q e = absurd (cc)
    on_scan (some result) q e = elim (Bool-cases (any_blocked result)) [
      | inl stop ↦ absurd (cc (rw stop at e))
      | inr allowed ↦
          on_masked result (desensitize_chat_request_body g.digit (patterns_of g o) body) q allowed
            refl (rw allowed at e)
    ]

  on_scanner :
      (text : Text) (s : Option ScannerOrchestrator)
      → extract_latest_text_from_request chat_completions_path (object body) ≡ some text
      → g.scanner ≡ s
      → Clears (inspect_with g s body text)
      → IsInspected g body scanned a rewritten
  on_scanner text none latest present e = absurd (cc)
  on_scanner text (some o) latest present e = on_scan o text present latest (scan o text) refl e

  on_text :
      (t : Option Text)
      → extract_latest_text_from_request chat_completions_path (object body) ≡ t
      → Clears (inspect_text g body t)
      → IsInspected g body scanned a rewritten
  on_text none latest e = absurd (cc)
  on_text (some []) latest e = absurd (cc)
  on_text (some (c ∷ cs)) latest e = on_scanner (c ∷ cs) g.scanner latest refl e

  pub inspect-IsInspected :
      inspect g body ≡ ok (cleared scanned a rewritten) → IsInspected g body scanned a rewritten
  unfolding inspect
  inspect-IsInspected e =
      on_text (extract_latest_text_from_request chat_completions_path (object body)) refl e
