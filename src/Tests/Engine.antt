-- ===== src/Tests/Engine.antt =====
-- Rules and texts for engine/.
use nf_safety_hub.Prelude.{
  ◌≤◌, length, take, Bool, true, false, Option, none, some, [], ◌∷◌, any, All, here, there, ◌≡◌,
  ◌↔◌, ◌≢◌, ap, refl,
}
use nf_safety_hub.Prelude.Text.{Text, str, lower, ◌==◌, starts_with}
use nf_safety_hub.Engine.Normalizer.{normalize}
use nf_safety_hub.Engine.Normalizer.Clean.{IsClean, normalize-IsClean}
use nf_safety_hub.Engine.Results.{ScannerResult, AggregatedScanResult, blocked, any_blocked}
use nf_safety_hub.Engine.Scanner.{Scanner, ScannerOrchestrator, scan}
use nf_safety_hub.Engine.Scanner.Laws.{Run, scan_iff, scan-blocked}
use nf_safety_hub.Engine.Keyword
use nf_safety_hub.Engine.Keyword.{mask_text, match_position, last, fold_case}
use nf_safety_hub.Engine.Keyword.Detection.{Occurs, Blocks, keyword_scan-blocked}
use nf_safety_hub.Engine.Regex
use nf_safety_hub.Engine.Regex.{compile_rule, compile_rules, desensitize_patterns, get_last?}
use nf_safety_hub.Proxy.Desensitize.{Pattern}

abbrev rule : Keyword.Rule
rule = record {
  id = some (str "R1");
  name = some (str "drugs");
  level = some (str "block");
  description = none;
  enabled = none;
  case_sensitive = none;
  match_mode = none;
  stop_on_first = none;
  keywords = some (str "gun" ∷ str "bad" ∷ []);
}

abbrev keyword_scanner : Scanner
keyword_scanner = record {
  name = str "keyword";
  scan = λ text. some (Keyword.scan lower (rule ∷ []) text);
  desensitize_patterns = none;
}

abbrev broken_scanner : Scanner
broken_scanner = record { name = str "broken"; scan = λ text. none; desensitize_patterns = none }

abbrev open_orchestrator : ScannerOrchestrator
open_orchestrator = record {
  scanners = broken_scanner ∷ keyword_scanner ∷ [];
  normalize = λ text. text;
  fail_open = true;
}

abbrev pub strict_orchestrator : ScannerOrchestrator
strict_orchestrator = record {
  scanners = keyword_scanner ∷ [];
  normalize = λ text. text;
  fail_open = false;
}

abbrev pub found : ScannerResult
found = record {
  hit = true;
  rule_id = str "R1";
  rule_name = str "drugs";
  level = str "block";
  matched_text = str "b*d";
  position = (3, 6);
  scanner_type = str "keyword";
  description = [];
}

abbrev pub bad_text : Text
bad_text = str "so BAD!"

abbrev good_text : Text
good_text = str "so good"

abbrev pub bad_result : AggregatedScanResult
bad_result = record { results = found ∷ []; normalized_text = bad_text }

abbrev good_result : AggregatedScanResult
good_result = record { results = []; normalized_text = good_text }

keyword-bad : Keyword.scan lower (rule ∷ []) bad_text ≡ found ∷ []
unfolding Keyword.scan Keyword.build_result match_position lower str ◌==◌ starts_with
keyword-bad = refl

found-blocked : blocked found ≡ true
unfolding blocked str ◌==◌
found-blocked = refl

scan-bad : scan open_orchestrator bad_text ≡ some bad_result
unfolding scan Keyword.scan Keyword.build_result match_position lower blocked str ◌==◌ starts_with
scan-bad = refl

scan-good : scan strict_orchestrator good_text ≡ some good_result
unfolding scan Keyword.scan Keyword.build_result match_position lower blocked str ◌==◌ starts_with
scan-good = refl

any_blocked-bad : any_blocked bad_result ≡ true
unfolding any_blocked blocked str ◌==◌
any_blocked-bad = refl

any_blocked-good : any_blocked good_result ≡ false
unfolding any_blocked
any_blocked-good = refl

scan_iff_example : (scan open_orchestrator bad_text ≡ some bad_result) ↔ (
    (bad_result.normalized_text ≡ open_orchestrator.normalize bad_text)
    × Run open_orchestrator.fail_open
        (open_orchestrator.normalize bad_text)
        open_orchestrator.scanners
        bad_result.results)
scan_iff_example = scan_iff open_orchestrator bad_text bad_result

bad_found : any blocked (found ∷ []) ≡ true
unfolding blocked str ◌==◌
bad_found = refl

keyword_scanner-bad :
    keyword_scanner.scan (open_orchestrator.normalize bad_text) ≡ some (found ∷ [])
keyword_scanner-bad = ap some keyword-bad

scan-blocked_example : any_blocked bad_result ≡ true
scan-blocked_example =
    scan-blocked open_orchestrator bad_text keyword_scanner (found ∷ []) bad_result (there here)
      keyword_scanner-bad bad_found scan-bad

rule-Blocks : Blocks lower rule
rule-Blocks = record { enabled = refl; level = refl; mode = refl }

folded-not_empty : fold_case lower rule (str "bad") ≢ []
unfolding lower str
folded-not_empty e = absurd (cc e)

bad_text-Occurs : Occurs (fold_case lower rule (str "bad")) (fold_case lower rule bad_text)
unfolding lower str
bad_text-Occurs = record { before = str "so "; after = str "!"; split = refl }

keyword_scan-blocked_example : any blocked (Keyword.scan lower (rule ∷ []) bad_text) ≡ true
keyword_scan-blocked_example =
    keyword_scan-blocked lower (rule ∷ []) bad_text rule (str "bad") here rule-Blocks (there here)
      folded-not_empty bad_text-Occurs

keyword-not_empty : str "ab" ≢ []
unfolding str
keyword-not_empty e = absurd (cc e)

same_length : length (str "badly") ≡ length (str "booty")
unfolding str
same_length = refl

same_first : 2 ≤ length (str "badly") → take 1 (str "badly") ≡ take 1 (str "booty")
unfolding str
same_first h = refl

same_last : 3 ≤ length (str "badly") → last (str "badly") ≡ last (str "booty")
unfolding str
same_last h = refl

-- A pattern that matches the first three characters and the two after them, where there are five.
abbrev two_spans : Pattern
two_spans (a ∷ b ∷ c ∷ d ∷ e ∷ text) =
    record { start = 0; stop = 3 } ∷ record { start = 3; stop = 5 } ∷ []
two_spans text = []

abbrev compile_any : Text → Bool → Option Pattern
compile_any source ignore_case = some two_spans

abbrev regex_rule : Regex.Rule
regex_rule = record {
  id = some (str "P1");
  name = none;
  level = some (str "desensitize");
  description = none;
  enabled = some true;
  ignore_case = none;
  pattern = some (str "...");
}

regex_rule-compiles : compile_rule compile_any regex_rule ≡ some two_spans
unfolding compile_rule
regex_rule-compiles = refl

two_spans-matches : two_spans (str "hello!") ≢ []
unfolding str
two_spans-matches e = absurd (cc e)

abbrev same_text : Text → Text
same_text text = text

normalize-IsClean_example : All IsClean (normalize same_text same_text same_text (str "so\tbad"))
normalize-IsClean_example = normalize-IsClean same_text same_text same_text (str "so\tbad")
