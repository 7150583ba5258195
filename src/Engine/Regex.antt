-- ===== src/Engine/Regex.antt =====
-- engine/rules_regex.py: `RegexScanner`. The engine is Python's: `compile` gives the function that
-- lists the spans of the matches of a pattern, in order, or fails as `re.compile` does.
pub mod Laws
use nf_safety_hub.Prelude.{
  map_option, ℕ, zero, suc, ◌+◌, ◌-◌, Bool, true, false, Option, none, some, List, [], ◌∷◌, ◌++◌,
  if◌then◌else◌, filter, get_or_else, length, replicate, take, drop, map, leb,
}
use nf_safety_hub.Prelude.Text.{Text, str, ◌==◌}
use nf_safety_hub.Engine.Results.{ScannerResult}
use nf_safety_hub.Proxy.Desensitize.{Pattern, Span}

pub record Rule : Type 0 where
  pub id : Option Text
  pub name : Option Text
  pub level : Option Text
  pub description : Option Text
  pub enabled : Option Bool
  pub ignore_case : Option Bool
  pub pattern : Option Text

-- `_mask_text`
unfoldable pub mask_text : Text → Text
mask_text [] = []
mask_text (c ∷ cs) =
    if leb (length (c ∷ cs)) 4
    then c ∷ replicate (length (c ∷ cs) - 1) 42
    else take 2 (c ∷ cs)
      ++ (replicate (length (c ∷ cs) - 4) 42 ++ drop (length (c ∷ cs) - 2) (c ∷ cs))

abbrev pub get_last? : List Span → Option Span
get_last? [] = none
get_last? (m ∷ []) = some m
get_last? (m ∷ n ∷ ms) = get_last? (n ∷ ms)

-- `_last_match`
unfoldable pub last_match : Pattern → Text → Option Span
last_match pattern text = get_last? (pattern text)

-- `match.group()`
abbrev pub group : Text → Span → Text
group text m = take (m.stop - m.start) (drop m.start text)

-- `_build_result`
unfoldable pub build_result : Rule → Text → Span → ScannerResult
unfolding mask_text
build_result rule text m = record {
  hit = true;
  rule_id = get_or_else rule.id [];
  rule_name = get_or_else rule.name [];
  level = get_or_else rule.level (str "block");
  matched_text = mask_text (group text m);
  position = (m.start, m.stop);
  scanner_type = str "regex";
  description = get_or_else rule.description [];
}

abbrev pub Compiled : Type 0
Compiled = List (Pattern × Rule)

-- `continue` without an item, and `append` with one
abbrev pub add {ℓ} : {A : Type ℓ} → Option A → List A → List A
add none rest = rest
add (some a) rest = a ∷ rest

module _ (compile : Text → (ignore_case : Bool) → Option Pattern) where
  -- one round of `_compile_rules`: `none` where the rule is passed over
  unfoldable pub compile_rule : Rule → Option Pattern
  compile_rule rule =
      if get_or_else rule.enabled true
      then elim rule.pattern [
        | none ↦ none
        | some source ↦ compile source (get_or_else rule.ignore_case false)
      ]
      else none

  -- `_compile_rules`
  unfoldable pub compile_rules : List Rule → Compiled
  unfolding compile_rule
  compile_rules [] = []
  compile_rules (rule ∷ rules) =
      add (map_option (λ p. (p, rule)) (compile_rule rule)) (compile_rules rules)

-- `RegexScanner.scan`
unfoldable pub scan : Compiled → Text → List ScannerResult
unfolding last_match
scan [] text = []
scan ((pattern, rule) ∷ compiled) text =
    add (map_option (build_result rule text) (last_match pattern text)) (scan compiled text)

abbrev pub is_level : Text → Pattern × Rule → Bool
is_level level (pattern, rule) = elim rule.level [ none ↦ false | some l ↦ l == level ]

-- `desensitize_patterns`, without the rules, which no caller reads
unfoldable pub desensitize_patterns : Compiled → List Pattern
desensitize_patterns compiled = map (λ c. c.0) (filter (is_level (str "desensitize")) compiled)
