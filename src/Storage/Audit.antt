-- ===== src/Storage/Audit.antt =====
-- storage/audit.py: the audit logs of a scan, and the queries on them.
-- `sha256` is the hash in hex. The positions of scanner results are not negative.
pub mod Snippets
pub mod Trail
pub mod Reader
use nf_safety_hub.Prelude.{
  ℕ, suc, ◌+◌, ◌-◌, max, min, Bool, true, false, not, ◌&&◌, ◌||◌, Option, none, some, List, [], ◌∷◌,
  ◌++◌, map, filter, if◌then◌else◌, is_empty, take, drop, ltb, leb, length,
}
use nf_safety_hub.Prelude.Text.{Text, starts_with}
use nf_safety_hub.Engine.Results.{ScannerResult, AggregatedScanResult}

pub data ScanResult : Type 0 where
  aggregated : AggregatedScanResult → ScanResult
  single : ScannerResult → ScanResult

pub record AuditPayload : Type 0 where
  pub request_id : Text
  pub scan_result : ScanResult
  pub action_taken : Text
  pub user_id : Text
  pub scanned_text : Text
  pub desensitized_text : Text

pub record AuditLog : Type 0 where
  pub request_id : Text
  pub user_id : Text
  pub rule_id : Text
  pub rule_name : Text
  pub rule_level : Text
  pub scanner_type : Text
  pub matched_snippet : Text
  pub context_snippet : Text
  pub desensitized_snippet : Text
  pub full_text_hash : Text
  pub action_taken : Text

abbrev pub audit_context_chars : ℕ
audit_context_chars = 80

-- `_extract_results`
unfoldable pub extract_results : ScanResult → List ScannerResult
extract_results (aggregated a) = a.results
extract_results (single r) = r ∷ []

-- `_normalized_text`
unfoldable pub normalized_text : ScanResult → Text
normalized_text (aggregated a) = a.normalized_text
normalized_text (single r) = []

abbrev shift : Option ℕ → Option ℕ
shift none = none
shift (some n) = some (suc n)

-- `text.find(part)`, `none` for -1
unfoldable pub find_text : Text → Text → Option ℕ
find_text part [] = if is_empty part then some 0 else none
find_text part (c ∷ cs) =
    let rest = find_text part cs in if starts_with (c ∷ cs) part then some 0 else shift rest

-- `_bounded_position`
unfoldable pub bounded_position : Text → ℕ × ℕ → ℕ × ℕ
bounded_position text (start, end) =
    if leb end start || leb (length text) start then (0, 0) else (start, min end (length text))

-- `text[start:end]`
abbrev pub slice : Text → ℕ → ℕ → Text
slice text start end = take (end - start) (drop start text)

-- `_window`
unfoldable pub window : Text → ℕ → ℕ → Text → Text
window text start end replacement =
    let window_start = start - audit_context_chars in
    let window_end = min (length text) (end + audit_context_chars) in
    let snippet = slice text window_start window_end in
    if is_empty replacement
    then snippet
    else take (start - window_start) snippet ++ (replacement ++ drop (end - window_start) snippet)

abbrev found_window : Text → Text → Option ℕ → Text
found_window text matched none = take (audit_context_chars + audit_context_chars) text
found_window text matched (some index) = window text index (index + length matched) []

-- `_context_snippet`
unfoldable pub context_snippet : Text → ScannerResult → Bool → Text
unfolding bounded_position window find_text
context_snippet text result replace_match =
    let (start, end) = bounded_position text result.position in
    let replacement = if replace_match then result.matched_text else [] in
    if is_empty text
    then []
    else if ltb start end
    then window text start end replacement
    else if is_empty result.matched_text
    then take (audit_context_chars + audit_context_chars) text
    else found_window text result.matched_text (find_text result.matched_text text)

abbrev pub or_else : Text → Text → Text
or_else s t = if is_empty s then t else s

module _ (sha256 : Text → Text) where
  -- `_hash_text`
  unfoldable pub hash_text : Text → Text
  hash_text text = if is_empty text then [] else sha256 text

  unfoldable pub log_of : AuditPayload → ScannerResult → AuditLog
  unfolding context_snippet normalized_text hash_text
  log_of payload result =
      let normalized = normalized_text payload.scan_result in
      record {
        request_id = payload.request_id;
        user_id = payload.user_id;
        rule_id = result.rule_id;
        rule_name = result.rule_name;
        rule_level = result.level;
        scanner_type = result.scanner_type;
        matched_snippet = result.matched_text;
        context_snippet = context_snippet (or_else normalized payload.scanned_text) result false;
        desensitized_snippet =
            if is_empty payload.desensitized_text
            then []
            else context_snippet payload.desensitized_text result false;
        full_text_hash = hash_text (or_else payload.scanned_text normalized);
        action_taken = payload.action_taken;
      }

  -- `_logs_from_payload`
  unfoldable pub logs_from_payload : AuditPayload → List AuditLog
  unfolding log_of extract_results
  logs_from_payload payload =
      map (log_of payload) (filter (λ r. r.hit) (extract_results payload.scan_result))

  abbrev pub all_logs : List AuditPayload → List AuditLog
  all_logs [] = []
  all_logs (p ∷ ps) = logs_from_payload p ++ all_logs ps

  -- `write_many`: the table after it, if the database takes the logs
  unfoldable pub write_many : List AuditLog → List AuditPayload → List AuditLog
  unfolding logs_from_payload
  write_many table payloads = table ++ all_logs payloads

  -- `write_scan_result`
  unfoldable pub write_scan_result : List AuditLog → AuditPayload → List AuditLog
  unfolding logs_from_payload
  write_scan_result table payload = table ++ logs_from_payload payload
