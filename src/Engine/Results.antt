-- ===== src/Engine/Results.antt =====
-- engine/models.py: `ScannerResult`, `AggregatedScanResult` and their properties.
use nf_safety_hub.Prelude.{
  ℕ, Bool, true, not, ◌&&◌, ◌||◌, Option, some, List, [], ◌∷◌, if◌then◌else◌, any, filter, find,
  ◌≡◌, refl, inl, inr, Bool-cases,
}
use nf_safety_hub.Prelude.Text.{Text, str, ◌==◌}

pub record ScannerResult : Type 0 where
  pub hit : Bool
  pub rule_id : Text
  pub rule_name : Text
  pub level : Text
  pub matched_text : Text
  pub position : ℕ × ℕ
  pub scanner_type : Text
  pub description : Text

unfoldable pub blocked : ScannerResult → Bool
blocked r = r.hit && r.level == str "block"

unfoldable pub warned : ScannerResult → Bool
warned r = r.hit && r.level == str "warn"

unfoldable pub desensitized : ScannerResult → Bool
desensitized r = r.hit && r.level == str "desensitize"

unfoldable pub passed : ScannerResult → Bool
passed r = not r.hit || r.level == str "pass"

pub record AggregatedScanResult : Type 0 where
  pub results : List ScannerResult
  pub normalized_text : Text

unfoldable pub any_hit : AggregatedScanResult → Bool
any_hit a = any (λ r. r.hit) a.results

unfoldable pub any_blocked : AggregatedScanResult → Bool
any_blocked a = any blocked a.results

unfoldable pub any_warned : AggregatedScanResult → Bool
any_warned a = any warned a.results

unfoldable pub any_desensitized : AggregatedScanResult → Bool
any_desensitized a = any desensitized a.results

unfoldable pub block_result : AggregatedScanResult → Option ScannerResult
block_result a = find blocked a.results

unfoldable pub desensitize_results : AggregatedScanResult → List ScannerResult
desensitize_results a = filter desensitized a.results

unfoldable pub warn_results : AggregatedScanResult → List ScannerResult
warn_results a = filter warned a.results

-- The values of `action`.
pub data Action : Type 0 where
  block desensitize warn pass : Action

-- `AggregatedScanResult.action`
unfoldable pub action : AggregatedScanResult → Action
unfolding any_blocked any_desensitized any_warned
action a =
    if any_blocked a
    then block
    else if any_desensitized a
    then desensitize
    else if any_warned a
    then warn
    else pass

any-find :
    {A : Type 0} (p : A → Bool) (xs : List A)
    → any p xs ≡ true
    → (x : A) × (find p xs ≡ some x) × (p x ≡ true)
any-find p [] h = absurd (cc)
any-find p (x ∷ xs) h = elim (Bool-cases (p x)) [
  | inl e ↦ (x, rw e refl, e)
  | inr n ↦ let (y, found, py) = any-find p xs (rw n at h) in (y, rw n found, py)
]

-- A blocked result names a result that blocks: `block_result` is never `None` then.
pub block_result_lem :
    (a : AggregatedScanResult)
    → any_blocked a ≡ true
    → (r : ScannerResult) × (block_result a ≡ some r) × (blocked r ≡ true)
unfolding any_blocked block_result
block_result_lem a h = any-find blocked a.results h
