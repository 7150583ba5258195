-- ===== src/Storage/Audit/Trail.antt =====
-- storage/audit.py: what the audit table holds of the scans.
use nf_safety_hub.Prelude.{
  true, false, List, [], ◌∷◌, map, filter, is_empty, if◌then◌else◌, All-lookup, All-filter, In,
  here, there, In-cons, In-append, In-filter_inverse, In-append_left, In-append_right, In-map,
  In-filter, ◌≡◌, refl, sym, subst, ◌⊎◌, inl, inr,
}
use nf_safety_hub.Prelude.Text.{Text}
use nf_safety_hub.Engine.Results.{ScannerResult}
use nf_safety_hub.Storage.Audit.{
  AuditPayload, AuditLog, extract_results, normalized_text, context_snippet, or_else, log_of,
  logs_from_payload, all_logs, write_many,
}
use nf_safety_hub.Storage.Audit.Snippets.{IsSnippet, context_snippet-IsSnippet}

module _ {A B : Type 0} where
  In-map_inverse :
      (f : A → B) (xs : List A) (b : B) → In b (map f xs) → (a : A) × (In a xs × (b ≡ f a))
  In-map_inverse f [] b i = elim i [ ]
  In-map_inverse f (x ∷ xs) b i = elim (In-cons b (f x) (map f xs) i) [
    | inl same ↦ (x, (here, same))
    | inr j ↦ let (a, (k, e)) = In-map_inverse f xs b j in (a, (there k, e))
  ]

In-hits :
    (r : ScannerResult) (rs : List ScannerResult) → In r (filter (λ r. r.hit) rs) → r.hit ≡ true
In-hits r rs i = All-lookup (λ x. x.hit ≡ true) i (All-filter (λ x. x.hit) rs)

-- The log is of a hit of one of the scans: its rule, its match, and what surrounds it in the scanned
-- and in the desensitized text.
pub record Evidence (payloads : List AuditPayload) (log : AuditLog) : Type 0 where
  pub payload : AuditPayload
  pub is_given : In payload payloads
  pub result : ScannerResult
  pub is_found : In result (extract_results payload.scan_result)
  pub is_hit : result.hit ≡ true
  pub has_request : log.request_id ≡ payload.request_id
  pub has_user : log.user_id ≡ payload.user_id
  pub has_action : log.action_taken ≡ payload.action_taken
  pub has_rule : log.rule_id ≡ result.rule_id
  pub has_level : log.rule_level ≡ result.level
  pub has_match : log.matched_snippet ≡ result.matched_text
  pub has_context :
      IsSnippet
        (or_else (normalized_text payload.scan_result) payload.scanned_text)
        log.context_snippet
        result
  pub has_desensitized : IsSnippet payload.desensitized_text log.desensitized_snippet result

module _ (sha256 : Text → Text) where
  context_snippet-empty :
      (text : Text) (r : ScannerResult)
      → (if is_empty text then [] else context_snippet text r false) ≡ context_snippet text r false
  unfolding context_snippet
  context_snippet-empty [] r = refl
  context_snippet-empty (c ∷ cs) r = refl

  desensitized-IsSnippet :
      (payload : AuditPayload) (r : ScannerResult)
      → IsSnippet payload.desensitized_text (log_of sha256 payload r).desensitized_snippet r
  unfolding log_of
  desensitized-IsSnippet payload r =
      subst (λ t. IsSnippet payload.desensitized_text t r)
        (sym (context_snippet-empty payload.desensitized_text r))
        (context_snippet-IsSnippet payload.desensitized_text r)

  log_of-Evidence :
      (payloads : List AuditPayload) (payload : AuditPayload) (r : ScannerResult)
      → In payload payloads
      → In r (extract_results payload.scan_result)
      → r.hit ≡ true
      → Evidence payloads (log_of sha256 payload r)
  unfolding log_of
  log_of-Evidence payloads payload r given found hit = record {
    payload = payload;
    is_given = given;
    result = r;
    is_found = found;
    is_hit = hit;
    has_request = refl;
    has_user = refl;
    has_action = refl;
    has_rule = refl;
    has_level = refl;
    has_match = refl;
    has_context = context_snippet-IsSnippet _ r;
    has_desensitized = desensitized-IsSnippet payload r;
  }

  logs-Evidence :
      (payloads : List AuditPayload) (payload : AuditPayload) (log : AuditLog)
      → In payload payloads
      → In log (logs_from_payload sha256 payload)
      → Evidence payloads log
  unfolding logs_from_payload
  logs-Evidence payloads payload log given i =
      let (r, (j, same)) =
        In-map_inverse (log_of sha256 payload)
          (filter (λ r. r.hit) (extract_results payload.scan_result)) log i in
      subst (λ t. Evidence payloads t) (sym same)
        (log_of-Evidence payloads payload r given
          (In-filter_inverse r _ (extract_results payload.scan_result) j)
          (In-hits r (extract_results payload.scan_result) j))

  all_logs-Evidence :
      (payloads ps : List AuditPayload) (log : AuditLog)
      → ((p : AuditPayload) → In p ps → In p payloads)
      → In log (all_logs sha256 ps)
      → Evidence payloads log
  all_logs-Evidence payloads [] log sub i = elim i [ ]
  all_logs-Evidence payloads (p ∷ ps) log sub i =
      elim (In-append log (logs_from_payload sha256 p) (all_logs sha256 ps) i) [
        | inl j ↦ logs-Evidence payloads p log (sub p here) j
        | inr j ↦ all_logs-Evidence payloads ps log (λ q k. sub q (there k)) j
      ]

  -- A log that is stored after the audits of some scans was stored before, or is of a hit of one of
  -- the scans; its two snippets are then parts of the scanned and of the desensitized text, no longer
  -- than the match with 160 characters, which hold what stands at the hit's position in that text.
  pub write_many-Evidence :
      (table : List AuditLog) (payloads : List AuditPayload) (log : AuditLog)
      → In log (write_many sha256 table payloads)
      → In log table ⊎ Evidence payloads log
  unfolding write_many
  write_many-Evidence table payloads log i =
      elim (In-append log table (all_logs sha256 payloads) i) [
        | inl j ↦ inl j
        | inr j ↦ inr (all_logs-Evidence payloads payloads log (λ p k. k) j)
      ]

  In-all_logs :
      (payload : AuditPayload) (ps : List AuditPayload) (log : AuditLog)
      → In payload ps
      → In log (logs_from_payload sha256 payload)
      → In log (all_logs sha256 ps)
  In-all_logs payload [] log i j = elim i [ ]
  In-all_logs payload (p ∷ ps) log here j =
      In-append_left (logs_from_payload sha256 p) (all_logs sha256 ps) j
  In-all_logs payload (p ∷ ps) log (there i) j =
      In-append_right (logs_from_payload sha256 p) (all_logs sha256 ps)
        (In-all_logs payload ps log i j)

  -- Each hit of each of the scans is in the table after their audits are written.
  pub write_many-In :
      (table : List AuditLog) (payloads : List AuditPayload) (payload : AuditPayload)
      (result : ScannerResult)
      → In payload payloads
      → In result (extract_results payload.scan_result)
      → result.hit ≡ true
      → In (log_of sha256 payload result) (write_many sha256 table payloads)
  unfolding write_many logs_from_payload
  write_many-In table payloads payload result given found hit =
      In-append_right table (all_logs sha256 payloads) (
        In-all_logs payload payloads _ given (
          In-map (log_of sha256 payload) _
            (In-filter (λ r. r.hit) (extract_results payload.scan_result) found hit)))
