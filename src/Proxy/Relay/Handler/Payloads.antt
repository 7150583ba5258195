-- ===== src/Proxy/Relay/Handler/Payloads.antt =====
-- What `_select_relay_payload` of proxy/relay.py chooses for an inspected chat request.
use nf_safety_hub.Prelude.{false, not, some, ◌≡◌, arith, ◌⊎◌, inl, inr, Bool-cases}
use nf_safety_hub.Prelude.Text.{Text}
use nf_safety_hub.Json.{object, Fields, same, same_iff}
use nf_safety_hub.Engine.Results.{AggregatedScanResult, any_blocked, Action, desensitize}
use nf_safety_hub.Proxy.Relay.{
  RelayPayload, no_body, json, content, select_relay_payload, action_from_scan_result,
}

-- The payload of a chat request: the rewritten body, or the raw bytes where nothing was rewritten.
abbrev pub IsMaskedPayload : Fields → Text → Fields → RelayPayload → Type 0
IsMaskedPayload body raw rewritten payload =
    (payload ≡ no_body)
    ⊎ ((payload ≡ json (object rewritten)) ⊎ ((payload ≡ content raw) × (rewritten ≡ body)))

pub select-cases :
    (method : Text) (body : Fields) (raw : Text) (act : Action)
    → let p : RelayPayload = select_relay_payload method (object body) raw act in
      (p ≡ no_body) ⊎ ((p ≡ json (object body)) ⊎ (p ≡ content raw))
unfolding select_relay_payload
select-cases method body raw act = ground arith

select_desensitize-cases :
    (method : Text) (body : Fields) (raw : Text)
    → let p : RelayPayload = select_relay_payload method (object body) raw desensitize in
      (p ≡ no_body) ⊎ (p ≡ json (object body))
unfolding select_relay_payload
select_desensitize-cases method body raw = ground arith

pub select-IsMaskedPayload :
    (method : Text) (body rewritten : Fields) (raw : Text) (a : AggregatedScanResult)
    → any_blocked a ≡ false
    → IsMaskedPayload body raw rewritten (
        select_relay_payload method
          (object rewritten)
          raw
          (action_from_scan_result (some a) (not (same (object rewritten) (object body)))))
unfolding action_from_scan_result
select-IsMaskedPayload method body rewritten raw a allowed =
    elim (Bool-cases (same (object rewritten) (object body))) [
      | inl e ↦
          let unchanged : rewritten ≡ body = cc ((same_iff (object rewritten) (object body)).0 e) in
          elim (select-cases method rewritten raw
            (action_from_scan_result (some a) (not (same (object rewritten) (object body))))) [
              | inl p ↦ inl p
              | inr (inl p) ↦ inr (inl p)
              | inr (inr p) ↦ inr (inr (p, unchanged))
            ]
      | inr e ↦ rw allowed (
          rw e (elim (select_desensitize-cases method rewritten raw) [
            | inl p ↦ inl p
            | inr p ↦ inr (inl p)
          ]))
    ]
