-- ===== src/Reports/HighRisk.antt =====
-- storage/reports.py: the high-risk list of a report, and what it shows of the audited texts.
use nf_safety_hub.Prelude.{
  ℕ, zero, suc, Bool, true, false, ◌||◌, Option, none, some, List, [], ◌∷◌, map, filter, take, ◌≡◌,
  refl, ap, ◌∙◌, Bool-cases, inl, inr,
}
use nf_safety_hub.Prelude.Text.{Text, str, ◌==◌}
use nf_safety_hub.Storage.Audit.{AuditLog}
use nf_safety_hub.Storage.Audit.Reader.{StoredLog}

-- The snippets that a row has only in a sensitive report.
pub record Snippets : Type 0 where
  pub matched_snippet : Text
  pub desensitized_snippet : Text
  pub context_snippet : Text

pub record HighRiskRow : Type 0 where
  pub id : ℕ
  pub created_at : ℕ
  pub user_id : Text
  pub rule_id : Text
  pub rule_level : Text
  pub action_taken : Text
  pub snippets : Option Snippets

unfoldable pub is_high_risk : AuditLog → Bool
is_high_risk a = a.rule_level == str "block" || a.action_taken == str "blocked"

abbrev snippets_of : Bool → AuditLog → Option Snippets
snippets_of false a = none
snippets_of true a = some (record {
  matched_snippet = a.matched_snippet;
  desensitized_snippet = a.desensitized_snippet;
  context_snippet = a.context_snippet;
})

unfoldable pub high_risk_row : Bool → StoredLog → HighRiskRow
high_risk_row include_sensitive a = record {
  id = a.id;
  created_at = a.created_at;
  user_id = a.log.user_id;
  rule_id = a.log.rule_id;
  rule_level = a.log.rule_level;
  action_taken = a.log.action_taken;
  snippets = snippets_of include_sensitive a.log;
}

-- `_high_risk_rows`
unfoldable pub high_risk_rows : List StoredLog → Bool → List HighRiskRow
unfolding is_high_risk high_risk_row
high_risk_rows audits include_sensitive =
    map (high_risk_row include_sensitive) (take 50 (filter (λ a. is_high_risk a.log) audits))

-- the log with other snippets
abbrev pub without_snippets : StoredLog → StoredLog
without_snippets a = record a {
  log = record a.log { matched_snippet = []; context_snippet = []; desensitized_snippet = [] };
}

module _ {A B : Type 0} where
  take-map : (f : A → B) (n : ℕ) (xs : List A) → take n (map f xs) ≡ map f (take n xs)
  take-map f zero xs = refl
  take-map f (suc n) [] = refl
  take-map f (suc n) (x ∷ xs) = ap (λ t. f x ∷ t) (take-map f n xs)

filter-without_snippets :
    (audits : List StoredLog)
    → filter (λ a. is_high_risk a.log) (map without_snippets audits)
      ≡ map without_snippets (filter (λ a. is_high_risk a.log) audits)
unfolding is_high_risk
filter-without_snippets [] = refl
filter-without_snippets (a ∷ rest) = elim (Bool-cases (is_high_risk a.log)) [
  | inl e ↦ rw e (ap (λ t. without_snippets a ∷ t) (filter-without_snippets rest))
  | inr e ↦ rw e (filter-without_snippets rest)
]

rows-without_snippets :
    (audits : List StoredLog)
    → map (high_risk_row false) (map without_snippets audits) ≡ map (high_risk_row false) audits
unfolding high_risk_row
rows-without_snippets [] = refl
rows-without_snippets (a ∷ rest) = ap (λ t. high_risk_row false a ∷ t) (rows-without_snippets rest)

-- Unless a report is to be sensitive, its high-risk list does not depend on what the audits keep of
-- the scanned and desensitized texts.
pub high_risk_rows-without_snippets :
    (audits : List StoredLog)
    → high_risk_rows (map without_snippets audits) false ≡ high_risk_rows audits false
unfolding high_risk_rows
high_risk_rows-without_snippets audits =
    ap (λ t. map (high_risk_row false) (take 50 t)) (filter-without_snippets audits)
    ∙ (ap (map (high_risk_row false))
          (take-map without_snippets 50 (filter (λ a. is_high_risk a.log) audits))
        ∙ rows-without_snippets (take 50 (filter (λ a. is_high_risk a.log) audits)))
