-- ===== src/Engine/Keyword.antt =====
-- engine/rules_keyword.py: `KeywordScanner`. A rule is a dict of the YAML file; an absent key is
-- `none`, and the defaults of the code are written out. `lower` is Python's `str.lower` (a table of
-- the Unicode database) and is a parameter.
pub mod Match
pub mod Masking
pub mod Detection
use nf_safety_hub.Prelude.{
  ℕ, zero, suc, ◌+◌, ◌-◌, Bool, true, false, Option, none, some, List, [], ◌∷◌, ◌++◌, if◌then◌else◌,
  filter, get_or_else, map_option, is_empty, length, replicate, head?, drop,
}
use nf_safety_hub.Prelude.Text.{Text, str, ◌==◌, starts_with}
use nf_safety_hub.Engine.Results.{ScannerResult}

pub record Rule : Type 0 where
  pub id : Option Text
  pub name : Option Text
  pub level : Option Text
  pub description : Option Text
  pub enabled : Option Bool
  pub case_sensitive : Option Bool
  pub match_mode : Option Text
  pub stop_on_first : Option Bool
  pub keywords : Option (List Text)

-- `text.rfind(keyword)`, `none` for -1
unfoldable pub rfind : Text → Text → Option ℕ
rfind [] keyword = if starts_with [] keyword then some 0 else none
rfind (c ∷ cs) keyword = elim (rfind cs keyword) [
  | some i ↦ some (suc i)
  | none ↦ if starts_with (c ∷ cs) keyword then some 0 else none
]

abbrev span_from : Text → Option ℕ → Option (ℕ × ℕ)
span_from keyword none = none
span_from keyword (some index) = some (index, index + length keyword)

-- `_match_position`
unfoldable pub match_position : Text → Text → Text → Option (ℕ × ℕ)
unfolding rfind
match_position text keyword match_mode =
    if is_empty keyword
    then none
    else if match_mode == str "exact"
    then (if text == keyword then some (0, length text) else none)
    else if match_mode == str "prefix"
    then (if starts_with text keyword then some (0, length keyword) else none)
    else span_from keyword (rfind text keyword)

-- the last character, of a text that has one
abbrev pub last : Text → Text
last text = drop (length text - 1) text

-- `_mask_text`
unfoldable pub mask_text : Text → Text
mask_text [] = []
mask_text (c ∷ []) = 42 ∷ []
mask_text (c ∷ d ∷ []) = c ∷ 42 ∷ []
mask_text (c ∷ d ∷ e ∷ cs) =
    c ∷ (replicate (length (c ∷ d ∷ e ∷ cs) - 2) 42 ++ last (c ∷ d ∷ e ∷ cs))

-- `_build_result`
unfoldable pub build_result : Rule → Text → ℕ × ℕ → ScannerResult
unfolding mask_text
build_result rule keyword position = record {
  hit = true;
  rule_id = get_or_else rule.id [];
  rule_name = get_or_else rule.name [];
  level = get_or_else rule.level (str "block");
  matched_text = mask_text keyword;
  position = position;
  scanner_type = str "keyword";
  description = get_or_else rule.description [];
}

-- the end of a round of the loop over the keywords, `more` being what the later rounds add
abbrev pub add_result : Bool → Option ScannerResult → List ScannerResult → List ScannerResult
add_result stop_on_first none more = more
add_result stop_on_first (some r) more = if stop_on_first then r ∷ [] else r ∷ more

module _ (lower : Text → Text) where
  abbrev pub fold_case : Rule → Text → Text
  fold_case rule text = if get_or_else rule.case_sensitive false then text else lower text

  -- the loop of `_scan_rule` over the keywords that are left
  unfoldable pub scan_keywords : Rule → Text → List Text → List ScannerResult
  scan_keywords rule search_text [] = []
  scan_keywords rule search_text (keyword ∷ rest) =
      let more = scan_keywords rule search_text rest in
      add_result (get_or_else rule.stop_on_first true)
        (map_option (build_result rule keyword) (
          match_position search_text (fold_case rule keyword)
            (get_or_else rule.match_mode (str "contains"))))
        more

  -- `_scan_rule`
  unfoldable pub scan_rule : Text → Rule → List ScannerResult
  unfolding scan_keywords
  scan_rule text rule = scan_keywords rule (fold_case rule text) (get_or_else rule.keywords [])

  -- `_enabled_rules`
  unfoldable pub enabled_rules : List Rule → List Rule
  enabled_rules rules = filter (λ rule. get_or_else rule.enabled true) rules

  unfoldable pub scan_rules : Text → List Rule → List ScannerResult
  unfolding scan_rule
  scan_rules text [] = []
  scan_rules text (rule ∷ rules) = scan_rule text rule ++ scan_rules text rules

  -- `KeywordScanner.scan`
  unfoldable pub scan : List Rule → Text → List ScannerResult
  unfolding enabled_rules scan_rules
  scan rules text = scan_rules text (enabled_rules rules)
